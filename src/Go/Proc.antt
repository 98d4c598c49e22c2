-- ===== src/Go/Proc.antt =====
-- Procedures that read and write a state, and may panic.
use gomcpack.Go.{Go, done, panic, out_of_fuel, Panic}

abbrev pub Proc {ℓ κ} : Type ℓ → Type κ → Type (ℓ ⊔ κ)
Proc S A = S → Go (A × S)

abbrev pub and_then {ℓ κ μ} :
    {S : Type ℓ} {A : Type κ} {B : Type μ} → Go (A × S) → (A → Proc S B) → Go (B × S)
and_then (done (a, s)) f = f a s
and_then (panic p) f = panic p
and_then out_of_fuel f = out_of_fuel

infixl 5 ◌>>=◌ ◌>>◌
abbrev pub ◌>>=◌ {ℓ κ μ} :
    {S : Type ℓ} {A : Type κ} {B : Type μ} → Proc S A → (A → Proc S B) → Proc S B
(m >>= f) s = and_then (m s) f

abbrev pub ◌>>◌ {ℓ μ} : {S : Type ℓ} {B : Type μ} → Proc S (Unit {0}) → Proc S B → Proc S B
(m >> n) s = and_then (m s) (λ _. n)

abbrev pub pure {ℓ κ} : {S : Type ℓ} {A : Type κ} → A → Proc S A
pure a s = done (a, s)

abbrev pub throw {ℓ κ} : {S : Type ℓ} {A : Type κ} → Panic → Proc S A
throw p s = panic p

-- A statement that neither reads nor writes the state.
abbrev pub lift {ℓ κ} : {S : Type ℓ} {A : Type κ} → Go A → Proc S A
lift (done a) s = done (a, s)
lift (panic p) s = panic p
lift out_of_fuel s = out_of_fuel
