-- ===== src/Npc/Listen/Started.antt =====
-- The accept loop: which connections it serves, and that of npc/npctest/server.go.
use gomcpack.Prelude.{ℕ, ◌≡◌, refl, ap, sym, ◌∙◌, List, [], ◌∷◌, ◌++◌, append-nil, append_assoc}
use gomcpack.Npc.Listen.{
  Accepted, accepted, temporary, failed, Listening, next_delay, serve_listener, new_listening,
}
use gomcpack.Npc.TestServer.{TestServer, new_test_server, start, close_client_connections}

-- No outcome ends the loop.
abbrev pub GoesOn : List Accepted → Type 0
GoesOn [] = Unit
GoesOn (accepted c ∷ rest) = GoesOn rest
GoesOn (temporary e ∷ rest) = GoesOn rest
GoesOn (failed e ∷ rest) = ⊥

-- What has been started stays so.
started-kept :
    (events : List Accepted) (l : Listening)
    → (ys : List ℕ) × ((serve_listener events l).1.started ≡ l.started ++ ys)
unfolding serve_listener
started-kept [] l = ([], sym (append-nil l.started))
started-kept (accepted c ∷ rest) l =
    let (ys, e) = started-kept rest (record l { delay = 0; started = l.started ++ c ∷ [] }) in
    (c ∷ ys, e ∙ append_assoc l.started (c ∷ []) ys)
started-kept (temporary x ∷ rest) l =
    let d = next_delay l.delay in
    started-kept rest (record l { delay = d; slept = l.slept ++ d ∷ [] })
started-kept (failed x ∷ rest) l = ([], sym (append-nil l.started))

started-from :
    (before : List Accepted) (c : ℕ) (rest : List Accepted) (l : Listening)
    → GoesOn before
    → (xs : List ℕ) × (ys : List ℕ) × ((serve_listener (before ++ accepted c ∷ rest) l).1.started
        ≡ xs ++ c ∷ ys)
unfolding serve_listener
started-from [] c rest l h =
    let (ys, e) = started-kept rest (record l { delay = 0; started = l.started ++ c ∷ [] }) in
    (l.started, ys, e ∙ append_assoc l.started (c ∷ []) ys)
started-from (accepted b ∷ before) c rest l h =
    started-from before c rest (record l { delay = 0; started = l.started ++ b ∷ [] }) h
started-from (temporary x ∷ before) c rest l h =
    let d = next_delay l.delay in
    started-from before c rest (record l { delay = d; slept = l.slept ++ d ∷ [] }) h
started-from (failed x ∷ before) c rest l h = absurd h

-- A connection that `Accept` returns before any error that is not temporary is served, whatever
-- temporary errors came before it and whatever comes behind it.
pub serve_listener-started :
    (before : List Accepted) (c : ℕ) (rest : List Accepted)
    → GoesOn before
    → (xs : List ℕ) × (ys : List ℕ) × ((serve_listener
          (before ++ accepted c ∷ rest)
          new_listening).1.started
        ≡ xs ++ c ∷ ys)
serve_listener-started before c rest h = started-from before c rest new_listening h

-- What has been kept is what has been started.
start-from :
    (events : List Accepted) (l : Listening) (s : TestServer)
    → s.history ≡ l.started
    → ((start events (l, s)).0 ≡ serve_listener events l)
      × ((start events (l, s)).1.history ≡ (serve_listener events l).1.started)
      × ((start events (l, s)).1.closed ≡ s.closed)
unfolding start
start-from [] l s h = (refl, h, refl)
start-from (accepted c ∷ rest) l s h =
    start-from rest (record l { delay = 0; started = l.started ++ c ∷ [] })
      (record s { history = s.history ++ c ∷ [] }) (ap (λ (t : List ℕ). t ++ c ∷ []) h)
start-from (temporary x ∷ rest) l s h =
    let d = next_delay l.delay in
    start-from rest (record l { delay = d; slept = l.slept ++ d ∷ [] }) s h
start-from (failed x ∷ rest) l s h = (refl, h, refl)

-- The test server runs the loop as the server does, and `CloseClientConnections` then closes exactly
-- the connections that the loop serves, in their order.
pub close_client_connections-start :
    (events : List Accepted)
    → let r = start events (new_listening, new_test_server) in
      (r.0 ≡ serve_listener events new_listening)
      × ((close_client_connections r.1).closed ≡ (serve_listener events new_listening).1.started)
unfolding close_client_connections
close_client_connections-start events =
    let (e1, e2, e3) = start-from events new_listening new_test_server refl in
    (e1, rw (e3, e2) refl)
