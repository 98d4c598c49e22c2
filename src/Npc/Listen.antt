-- ===== src/Npc/Listen.antt =====
-- npc/server.go: `Server.Serve`, the loop that accepts connections, and the delay after an error.
-- `Accept` is a sequence of outcomes, of which the loop takes one in each turn; a `time.Duration` is a
-- number of nanoseconds with 64 bits. `newConn` returns no error. Logging leaves no trace.
pub mod Delay
pub mod Started
use gomcpack.Prelude.{
  ℕ, ◌+◌, ◌*◌, ◌%◌, ◌^◌, Option, none, some, List, [], ◌∷◌, ◌++◌, length, ltb, ◌==◌, if◌then◌else◌,
}
use gomcpack.Go.{Error, Returns, ok, err}
use gomcpack.Go.Slice.{Bytes}

-- What `l.Accept()` returns: a connection, a `net.Error` that is temporary, or another error.
pub data Accepted : Type 0 where
  accepted : ℕ → Accepted
  temporary : Error → Accepted
  failed : Error → Accepted

-- `tempDelay`, the connections for which `go c.serve()` was called, and the delays slept, each in
-- their order.
pub record Listening : Type 0 where
  pub delay : ℕ
  pub started : List ℕ
  pub slept : List ℕ

abbrev pub millisecond : ℕ
millisecond = 1000000

abbrev pub second : ℕ
second = 1000000000

-- The delay after a temporary error.
unfoldable pub next_delay : ℕ → ℕ
next_delay delay =
    let grown = if delay == 0 then 5 * millisecond else delay * 2 % 2 ^ 64 in
    if ltb second grown then second else grown

-- The end of the loop: it still waits for `Accept`, or it has closed the listener and returned.
pub data Outcome : Type 0 where
  waits : Outcome
  returns : Error → Outcome

unfoldable pub serve_listener : List Accepted → Listening → Outcome × Listening
unfolding next_delay
serve_listener [] l = (waits, l)
serve_listener (accepted conn ∷ rest) l =
    serve_listener rest (record l { delay = 0; started = l.started ++ conn ∷ [] })
serve_listener (temporary e ∷ rest) l =
    let delay = next_delay l.delay in
    serve_listener rest (record l { delay = delay; slept = l.slept ++ delay ∷ [] })
serve_listener (failed e ∷ rest) l = (returns e, l)

-- `srv.Serve(l)`
abbrev pub new_listening : Listening
new_listening = record { delay = 0; started = []; slept = [] }

-- `srv.ListenAndServe()`: the address on which it listens, and what becomes of it, by the sequence
-- that `Accept` on a listener at an address returns, or the error of `net.Listen`.
unfoldable pub listen_and_serve : (Bytes → Returns (List Accepted)) → Bytes → Outcome × Listening
listen_and_serve listen addr =
    if length addr == 0
    then on (listen (b':' ∷ b'8' ∷ b'8' ∷ b'8' ∷ b'8' ∷ []))
    else on (listen addr)
  where
    on : Returns (List Accepted) → Outcome × Listening
    on (err e) = (returns e, new_listening)
    on (ok outcomes) = serve_listener outcomes new_listening
