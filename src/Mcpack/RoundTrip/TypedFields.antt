-- ===== src/Mcpack/RoundTrip/TypedFields.antt =====
-- The loop over the members of a struct whose fields were written one by one: each name finds its
-- own field, and the fields before it are left as they are.
use gomcpack.Prelude.{
  ℕ, ◌≡◌, refl, ◌∙◌, Bool, true, false, bytes_eq, bytes_eq→eq, bytes_eq_refl, Bool-cases, inl, inr,
}
use gomcpack.Go.{Go, done, panic, out_of_fuel}
use gomcpack.Go.Slice.{Bytes}
use gomcpack.Go.Proc.{pure, and_then}
use gomcpack.Mcpack.GoType.{GoType, FieldTypes, field, Var, Vars}
use gomcpack.Mcpack.Decode.{DecodeState, Decoder}
use gomcpack.Mcpack.Decode.Typed.{Library, has_name, member_test, store_at, decode}

-- The test for one name.
abbrev pub is_name : Bytes → Bytes → Bool
is_name k n = bytes_eq n k

pub and_then_assoc :
    {A B C : Type 0} (r : Go (A × DecodeState)) (f : A → B) (g : B → C)
    → and_then (and_then r (λ a. pure (f a))) (λ b. pure (g b)) ≡ and_then r (λ a. pure (g (f a)))
and_then_assoc (done (a, s)) f g = refl
and_then_assoc (panic p) f g = refl
and_then_assoc out_of_fuel f g = refl

pub and_then-pure : {A : Type 0} (r : Go (A × DecodeState)) → and_then r pure ≡ r
and_then-pure (done (a, s)) = refl
and_then-pure (panic p) = refl
and_then-pure out_of_fuel = refl

-- A member whose name is among the fields is stored in the field of this name.
pub store_at-member_test :
    (lib : Library) (fuel : ℕ) (fs : FieldTypes) (k : Bytes) (vs : Vars fs) (s : DecodeState)
    → has_name (is_name k) fs ≡ true
    → store_at lib fuel fs (member_test lib fs k) vs s ≡ store_at lib fuel fs (is_name k) vs s
unfolding member_test
store_at-member_test lib fuel fs k vs s h = rw h refl

module _ (lib : Library) (fuel : ℕ) where
  -- How `store` treats the names of the fields `gs`, which `put` puts behind other fields.
  abbrev pub Treats :
      {A : Type 0} → (gs : FieldTypes) → (Bytes → A → Decoder A) → (Vars gs → A) → Type 0
  Treats {A} gs store put =
      (k : Bytes) (vs : Vars gs) (s : DecodeState)
      → has_name (is_name k) gs ≡ true
      → store k (put vs) s ≡ and_then (store_at lib fuel gs (is_name k) vs s) (λ ws. pure (put ws))

  module _ {A : Type 0} (name : Bytes) (o : Bool) (τ : GoType) (gs : FieldTypes)
      (store : Bytes → A → Decoder A) (put : Vars (field name o τ gs) → A)
      (treats : Treats (field name o τ gs) store put) where
    -- The first of the fields.
    pub Treats-first :
        (v : Var τ) (vs : Vars gs) (s : DecodeState)
        → store name (put (v, vs)) s ≡ and_then (decode lib fuel τ v s) (λ w. pure (put (w, vs)))
    unfolding store_at
    Treats-first v vs s =
        treats name (v, vs) s (rw (bytes_eq_refl name) refl)
        ∙ rw (bytes_eq_refl name) (and_then_assoc (decode lib fuel τ v s) (λ w. (w, vs)) put)

    -- Those behind it.
    pub Treats-rest :
        (v : Var τ) → has_name (is_name name) gs ≡ false → Treats gs store (λ vs. put (v, vs))
    unfolding store_at
    Treats-rest v new k vs s h = elim (Bool-cases (bytes_eq name k)) [
      | inl e ↦ absurd (clash (bytes_eq→eq name k e))
      | inr e ↦
          treats k (v, vs) s (rw (e, h) refl)
          ∙ rw e (and_then_assoc (store_at lib fuel gs (is_name k) vs s) (λ ws. (v, ws)) put)
    ]
      where
        clash : name ≡ k → ⊥
        clash e = let other : has_name (is_name k) gs ≡ false = (rw e at new) in cc
