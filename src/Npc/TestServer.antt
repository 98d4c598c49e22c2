-- ===== src/Npc/TestServer.antt =====
-- npc/npctest/server.go: a server whose listener keeps the connections that it has accepted, so that
-- they can be closed. The count of requests that `Close` waits for is left out.
use gomcpack.Prelude.{ℕ, List, [], ◌∷◌, ◌++◌}
use gomcpack.Npc.Listen.{
  Accepted, accepted, temporary, failed, Listening, Outcome, waits, returns, serve_listener,
}

-- `Server` with its `historyListener`: the connections accepted, those closed, and the state of the
-- loop `Config.Serve`.
pub record TestServer : Type 0 where
  pub history : List ℕ
  pub closed : List ℕ

abbrev pub new_test_server : TestServer
new_test_server = record { history = []; closed = [] }

-- `hs.Accept()`, which returns what the listener below it does.
unfoldable pub accept : Accepted → TestServer → TestServer
accept (accepted c) s = record s { history = s.history ++ c ∷ [] }
accept (temporary e) s = s
accept (failed e) s = s

-- What follows a turn of the loop of `Serve`.
unfoldable pub after_turn :
    TestServer
    → (Listening → (Outcome × Listening) × TestServer)
    → Outcome × Listening
    → (Outcome × Listening) × TestServer
after_turn s go (waits, l) = go l
after_turn s go (returns e, l) = ((returns e, l), s)

-- `s.Start()`: the loop of `Serve` on this listener, one turn after the other.
unfoldable pub start : List Accepted → Listening × TestServer → (Outcome × Listening) × TestServer
unfolding serve_listener accept after_turn
start [] (l, s) = ((waits, l), s)
start (event ∷ rest) (l, s) =
    after_turn (accept event s) (λ l. start rest (l, accept event s))
      (serve_listener (event ∷ []) l)

-- `s.CloseClientConnections()`
unfoldable pub close_client_connections : TestServer → TestServer
close_client_connections s = record s { closed = s.closed ++ s.history }
