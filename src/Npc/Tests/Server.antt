-- ===== src/Npc/Tests/Server.antt =====
-- The theorems on the accept loop and on close notification applied to short runs.
use gomcpack.Prelude.{ℕ, ◌≡◌, refl, none, true, List, [], ◌∷◌, ◌++◌, map}
use gomcpack.Go.{done, io_error, eof, ok, err}
use gomcpack.Npc.Message.{new_request, write_request, write_header, write}
use gomcpack.Npc.Header.{marshal}
use gomcpack.Go.Slice.{slice_to_cap, store, copy}
use gomcpack.Mcpack.Number.{put_uint32}
use gomcpack.Npc.Client.{Client, Line, lookup, exchange, do_request}
use gomcpack.Npc.Client.Do.{Settled, do_request-Settled}
use gomcpack.Npc.Listen.{Accepted, accepted, temporary, failed, serve_listener, new_listening}
use gomcpack.Npc.Listen.Delay.{
  AreDelays, doubled_from, serve_listener-AreDelays, serve_listener-doubled,
}
use gomcpack.Npc.Listen.Started.{serve_listener-started, close_client_connections-start}
use gomcpack.Npc.TestServer.{new_test_server, start, close_client_connections}
use gomcpack.Npc.Notify.{connection, new_notify, close_notify, Notify, Reach, here, next, notified}
use gomcpack.Npc.Notify.Reached.{IsSound, Reach-IsSound, Closes, Reach-Closes}

abbrev outcomes : List Accepted
outcomes =
    accepted 1 ∷ temporary io_error ∷ temporary io_error ∷ accepted 2 ∷ failed eof ∷ accepted 3 ∷ []

serve_listener-AreDelays_example : AreDelays (serve_listener outcomes new_listening).1.slept
serve_listener-AreDelays_example = serve_listener-AreDelays outcomes

serve_listener-doubled_example :
    (serve_listener (map temporary (io_error ∷ eof ∷ io_error ∷ [])) new_listening).1.slept
    ≡ doubled_from 0 3
serve_listener-doubled_example = serve_listener-doubled (io_error ∷ eof ∷ io_error ∷ [])

abbrev outcomes_before : List Accepted
outcomes_before = accepted 1 ∷ temporary io_error ∷ []

serve_listener-started_example :
    (xs : List ℕ) × (ys : List ℕ) × ((serve_listener
        (outcomes_before ++ accepted 2 ∷ failed eof ∷ [])
        new_listening).1.started
      ≡ xs ++ 2 ∷ ys)
serve_listener-started_example = serve_listener-started outcomes_before 2 (failed eof ∷ []) tt

close_client_connections-start_example :
    ((start outcomes (new_listening, new_test_server)).0 ≡ serve_listener outcomes new_listening)
    × ((close_client_connections (start outcomes (new_listening, new_test_server)).1).closed
        ≡ (serve_listener outcomes new_listening).1.started)
close_client_connections-start_example = close_client_connections-start outcomes

-- `CloseNotify` has been called twice.
abbrev twice : Notify
twice = close_notify (close_notify new_notify)

reaches : Reach new_notify twice
reaches = next (next here (notified new_notify)) (notified (close_notify new_notify))

Reach-IsSound_example : IsSound twice
Reach-IsSound_example = Reach-IsSound twice reaches

copies : twice.copying ≡ connection ∷ []
unfolding close_notify
copies = refl

Reach-Closes_example : Closes twice connection
Reach-Closes_example = Reach-Closes twice connection [] reaches copies

abbrev no_conns : Client
no_conns = record { freeconn = []; closed = [] }

-- A connection on which nothing can be written.
abbrev broken_line : ℕ → Line
broken_line cn = record { writer = record { out = []; broken = true }; answer = λ sent. [] }

fails : exchange (broken_line 3) (new_request 7 none) ≡ done (err io_error)
unfolding exchange new_request write_request write_header marshal slice_to_cap store put_uint32 copy
    write
fails = refl

nothing : lookup (b'a' ∷ []) no_conns.freeconn ≡ []
unfolding lookup
nothing = refl

do_request-Settled_example :
    (c' : Client) × (do_request (ok (b'a' ∷ [])) (ok 3) broken_line (new_request 7 none) no_conns
      ≡ done (err io_error, c'))
    × Settled (err io_error) (b'a' ∷ []) 3 no_conns c'
do_request-Settled_example =
    do_request-Settled (b'a' ∷ []) 3 broken_line (new_request 7 none) no_conns (err io_error)
      nothing fails
