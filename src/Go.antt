-- ===== src/Go.antt =====
-- The Go language as far as the program uses it: the outcome of a statement, panics included, byte
-- slices, and procedures over a state. `Proc` has the procedures and `Slice` the slices.
pub mod Slice
pub mod Proc
use gomcpack.Prelude.{◌≡◌, ◌≢◌, refl}

-- The values of type `error` that the program makes.
pub data Error : Type 0 where
  key_too_long empty_key unexpected_end reflect_error invalid_unmarshal : Error
  incomplete_header short_header_buffer bad_magic : Error
  wrong_ins argument_not_exported reply_not_pointer reply_not_exported wrong_outs not_error : Error
  eof unexpected_eof wrote_response no_servers io_error : Error

-- What `panic` is called with: a `runtime.Error` (an index or a slice out of range), or an `error`
-- that the program passes.
pub data Panic : Type 0 where
  runtime_error : Panic
  raised : Error → Panic

-- `out_of_fuel` is no outcome of a Go program: a model of a recursion was given too little fuel.
pub data Go {ℓ} (A : Type ℓ) : Type ℓ where
  done : A → Go A
  panic : Panic → Go A
  out_of_fuel : Go A

-- Go's pair of a value and an `error`, one of which is nil.
pub data Returns {ℓ} (A : Type ℓ) : Type ℓ where
  ok : A → Returns A
  err : Error → Returns A

infixl 5 ◌>>=◌
abbrev pub ◌>>=◌ {ℓ κ} : {A : Type ℓ} {B : Type κ} → Go A → (A → Go B) → Go B
done a >>= f = f a
panic p >>= f = panic p
out_of_fuel >>= f = out_of_fuel

-- Inversion of a statement sequence that ends.
pub >>=-eq-done {ℓ κ} :
    {A : Type ℓ} {B : Type κ} (m : Go A) (f : A → Go B) {b : B}
    → (m >>= f) ≡ done b
    → (a : A) × (m ≡ done a) × (f a ≡ done b)
>>=-eq-done (done a) f h = (a, refl, h)
>>=-eq-done (panic p) f h = cc
>>=-eq-done out_of_fuel f h = cc

pub >>=-ne-out_of_fuel {ℓ κ} :
    {A : Type ℓ} {B : Type κ} (m : Go A) (f : A → Go B)
    → m ≢ out_of_fuel
    → ((a : A) → m ≡ done a → f a ≢ out_of_fuel)
    → (m >>= f) ≢ out_of_fuel
>>=-ne-out_of_fuel (done a) f hm hf = hf a refl
>>=-ne-out_of_fuel (panic p) f hm hf = λ e. cc
>>=-ne-out_of_fuel out_of_fuel f hm hf = λ e. absurd (hm refl)
