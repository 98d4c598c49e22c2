-- ===== src/Npc/Listen/Delay.antt =====
-- The accept loop: how long it sleeps, and which connections it serves.
use gomcpack.Prelude.{
  ℕ, zero, suc, ◌*◌, ◌^◌, ◌≤◌, ◌≡◌, refl, ap, sym, ◌∙◌, false, List, [], ◌∷◌, ◌++◌, append-nil,
  append_assoc, map, length, ◌==◌, arith, Bool-cases, inl, inr, min,
}
use native.Mathlib.Nat.{pow-succ'}
use gomcpack.Go.{Error}
use gomcpack.Npc.Listen.{
  Accepted, accepted, temporary, failed, Listening, millisecond, second, next_delay, serve_listener,
  new_listening,
}

-- A delay that is slept.
abbrev pub IsDelay : ℕ → Type 0
IsDelay d = (5 * millisecond ≤ d) × (d ≤ second)

abbrev pub AreDelays : List ℕ → Type 0
AreDelays [] = Unit
AreDelays (d ∷ ds) = IsDelay d × AreDelays ds

AreDelays-append : (ds : List ℕ) (d : ℕ) → AreDelays ds → IsDelay d → AreDelays (ds ++ d ∷ [])
AreDelays-append [] d h p = (p, tt)
AreDelays-append (x ∷ ds) d (q, h) p = (q, AreDelays-append ds d h p)

next_delay-IsDelay : (d : ℕ) → (d == 0 ≡ false → IsDelay d) → IsDelay (next_delay d)
unfolding next_delay
next_delay-IsDelay d h = elim (Bool-cases (d == 0)) [
  | inl e ↦ rw e (omega arith, omega arith)
  | inr e ↦ let (low, high) = h e in (ground arith, ground arith)
]

delays_from :
    (events : List Accepted) (l : Listening)
    → (l.delay == 0 ≡ false → IsDelay l.delay)
    → AreDelays l.slept
    → AreDelays (serve_listener events l).1.slept
unfolding serve_listener
delays_from [] l h p = p
delays_from (accepted c ∷ rest) l h p =
    delays_from rest (record l { delay = 0; started = l.started ++ c ∷ [] })
      (λ e. absurd (ground arith)) p
delays_from (temporary e ∷ rest) l h p =
    let d = next_delay l.delay in
    let is = next_delay-IsDelay l.delay h in
    delays_from rest (record l { delay = d; slept = l.slept ++ d ∷ [] }) (λ e. is)
      (AreDelays-append l.slept d p is)
delays_from (failed e ∷ rest) l h p = p

-- Whatever `Accept` returns, the loop never sleeps for less than 5 milliseconds or for more than one
-- second.
pub serve_listener-AreDelays :
    (events : List Accepted) → AreDelays (serve_listener events new_listening).1.slept
serve_listener-AreDelays events = delays_from events new_listening (λ e. absurd (ground arith)) tt

-- The delay after `k` temporary errors in a row, and the `n` delays that follow it.
abbrev pub doubled : ℕ → ℕ
doubled k = min (5 * millisecond * 2 ^ k) second

abbrev pub doubled_from : ℕ → ℕ → List ℕ
doubled_from k zero = []
doubled_from k (suc n) = doubled k ∷ doubled_from (suc k) n

next_delay-zero : next_delay 0 ≡ doubled 0
unfolding next_delay
next_delay-zero = refl

twice :
    (x y : ℕ)
    → 1 ≤ x
    → y ≡ 2 * x
    → next_delay (min (5 * millisecond * x) second) ≡ min (5 * millisecond * y) second
unfolding next_delay
twice x y h e = ground arith

power : (k : ℕ) → 1 ≤ 2 ^ k
power zero = omega arith
power (suc k) = omega (arith, power k, pow-succ' 2 k)

next_delay-doubled : (k : ℕ) → next_delay (doubled k) ≡ doubled (suc k)
unfolding next_delay
next_delay-doubled k = twice (2 ^ k) (2 ^ suc k) (power k) (pow-succ' 2 k)

doubled-slept :
    (es : List Error) (k : ℕ) (l : Listening)
    → next_delay l.delay ≡ doubled k
    → (serve_listener (map temporary es) l).1.slept ≡ l.slept ++ doubled_from k (length es)
unfolding serve_listener
doubled-slept [] k l h = sym (append-nil l.slept)
doubled-slept (e ∷ es) k l h =
    let d = next_delay l.delay in
    let l' : Listening = record l { delay = d; slept = l.slept ++ d ∷ [] } in
    doubled-slept es (suc k) l' (ap next_delay h ∙ next_delay-doubled k)
    ∙ ap (λ (d : ℕ). (l.slept ++ d ∷ []) ++ doubled_from (suc k) (length es)) h
    ∙ append_assoc l.slept (doubled k ∷ []) (doubled_from (suc k) (length es))

-- After temporary errors in a row the loop sleeps for 5 milliseconds, and then each time for twice as
-- long as before, up to one second, and goes on.
pub serve_listener-doubled :
    (es : List Error)
    → (serve_listener (map temporary es) new_listening).1.slept ≡ doubled_from 0 (length es)
serve_listener-doubled es = doubled-slept es 0 new_listening next_delay-zero
