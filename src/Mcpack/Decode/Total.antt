-- ===== src/Mcpack/Decode/Total.antt =====
-- The recursion of `valueInterface` is given enough fuel: on any input the decoder returns a value
-- or an error, or panics, and no loop or recursion goes on for ever.
use gomcpack.Prelude.{ℕ, zero, suc, ◌+◌, ◌<◌, ◌≡◌, ◌≢◌, Option, some, arith, length}
use gomcpack.Go.{Go, done, panic, out_of_fuel, runtime_error, raised, reflect_error}
use gomcpack.Go.Slice.{Bytes}
use gomcpack.Go.Proc.{◌>>=◌, pure, throw, and_then}
use gomcpack.Mcpack.Dyn.{Dyn, Members, map_set}
use gomcpack.Mcpack.Decode.State.{DecodeState, Decoder, peek, type_and_klen, key}
use gomcpack.Mcpack.Decode.Items.{null_interface}
use gomcpack.Mcpack.Decode.Ends.{
  Moves, Ends, Ends-peek, Ends-throw, Ends-bind, Ends-pure, Ends-if, ends_rules,
}
use gomcpack.Mcpack.Decode.EndsItems.{
  Ends-type_and_klen, Ends-key, ends_items, Ends-null, Ends-strict,
}
use gomcpack.Mcpack.Decode.Interface.{
  container_header, members_loop, object_interface, elements_loop, array_interface, value_of_type,
  value_interface, store_of_type, wrong_kind, value_into_interface, finish_unmarshal,
  unmarshal_interface,
}
use gomcpack.Mcpack.Dyn.{no_members}

Ends-reassoc :
    {A B C : Type 0} (l : ℕ) (m : Decoder A) (f : A → Decoder B) (g : B → Decoder C)
    → Ends l (m >>= λ a. f a >>= g)
    → Ends l ((m >>= f) >>= g)
Ends-reassoc {A} {B} {C} l m f g e = record { at = λ s h. go s (m s) (e.at s h) }
  where
    go :
        (s : DecodeState) (r : Go (A × DecodeState))
        → Moves s (and_then r (λ a. f a >>= g))
        → Moves s (and_then (and_then r f) g)
    go s (done (a, s')) h = h
    go s (panic p) h = h
    go s out_of_fuel h = h

-- What follows the header of a container has fewer bytes left.
pub Ends-header :
    {B : Type 0} (l : ℕ) (f : ℕ → Decoder B)
    → ((l' : ℕ) → l ≡ suc l' → (n : ℕ) → Ends l' (f n))
    → Ends l (container_header >>= f)
unfolding container_header
Ends-header l f ef =
    Ends-reassoc l type_and_klen _ f
      (Ends-strict l _ (λ l' e klen. Ends-bind l' _ f (search ends_rules depth 10) (ef l' e)))

pub Ends-header_alone : (l : ℕ) → Ends l container_header
unfolding container_header
Ends-header_alone l = search (ends_rules, Ends-type_and_klen) depth 10

module _ (l : ℕ) (value : Decoder Dyn) (ev : Ends l value) where
  Ends-members_loop : (n : ℕ) (m : Members) → Ends l (members_loop value n m)
  unfolding members_loop
  Ends-members_loop zero m = Ends-pure l m
  Ends-members_loop (suc n) m =
      Ends-bind l key _ (Ends-key l)
        λ k. Ends-bind l value _ ev λ v. Ends-members_loop n (map_set k v m)

  Ends-elements_loop : (n : ℕ) → Ends l (elements_loop value n)
  unfolding elements_loop
  Ends-elements_loop zero = Ends-pure l _
  Ends-elements_loop (suc n) =
      Ends-bind l value _ ev
        λ v. Ends-bind l (elements_loop value n) _ (Ends-elements_loop n) λ vs. Ends-pure l _

-- A value with members, whose members are read by `value`.
module _ (l : ℕ) (value : Decoder Dyn) (ev : (l' : ℕ) → l ≡ suc l' → Ends l' value) where
  pub Ends-object : Ends l (object_interface value)
  unfolding object_interface
  Ends-object = Ends-header l _ λ l' e n.
      Ends-bind l' _ _ (Ends-members_loop l' value (ev l' e) n no_members) λ m. Ends-pure l' _

  Ends-array : Ends l (array_interface value)
  unfolding array_interface
  Ends-array =
      Ends-header l _
        λ l' e n. Ends-bind l' _ _ (Ends-elements_loop l' value (ev l' e) n) λ m. Ends-pure l' _

  Ends-value_of_type : (t : ℕ) → Ends l (value_of_type value t)
  unfolding value_of_type
  Ends-value_of_type t = search (Ends-if, Ends-object, Ends-array, ends_items, Ends-pure) depth 20

-- With fuel above `l`, `valueInterface` ends wherever at most `l` bytes of the input are left: it
-- panics, or returns with the input as it was and the offset not moved back.
pub value_interface-Ends : (f l : ℕ) → l < f → Ends l (value_interface f)
unfolding value_interface
value_interface-Ends zero l h = absurd (omega arith)
value_interface-Ends (suc f) l h =
    Ends-bind l peek _ (Ends-peek l)
      (Ends-value_of_type l (value_interface f) (λ l' e. value_interface-Ends f l' (omega arith)))

Ends-wrong_kind : (l : ℕ) (m : Decoder Dyn) → Ends l m → Ends l (wrong_kind m)
unfolding wrong_kind
Ends-wrong_kind l m em = Ends-bind l m _ em λ v. Ends-throw l _

module _ (l : ℕ) (value : Decoder Dyn) (ev : (l' : ℕ) → l ≡ suc l' → Ends l' value) where
  Ends-store_object : Ends l (object_interface value >>= λ v. pure (some v))
  Ends-store_object =
      Ends-bind l (object_interface value) _ (Ends-object l value ev) λ v. Ends-pure l (some v)

  Ends-store_array :
      Ends {A = Option Dyn} l (container_header >>= λ n. throw (raised reflect_error))
  Ends-store_array = Ends-bind l container_header _ (Ends-header_alone l) λ n. Ends-throw l _

  Ends-store_null : Ends l (null_interface >>= λ v. pure (some v))
  Ends-store_null = Ends-bind l null_interface _ (Ends-null l) λ v. Ends-pure l (some v)

  Ends-store_of_type : (t : ℕ) → Ends l (store_of_type value t)
  unfolding store_of_type
  Ends-store_of_type t =
      search
        (
          Ends-if, Ends-store_object, Ends-store_array, Ends-store_null, Ends-wrong_kind,
          ends_items, Ends-pure,
        )
        depth 20

finish-ne-out_of_fuel :
    (s : DecodeState) (r : Go (Option Dyn × DecodeState))
    → Moves s r
    → finish_unmarshal r ≢ out_of_fuel
unfolding finish_unmarshal
finish-ne-out_of_fuel s (done (v, s')) h = ground arith
finish-ne-out_of_fuel s (panic runtime_error) h = λ e. cc
finish-ne-out_of_fuel s (panic (raised x)) h = λ e. cc
finish-ne-out_of_fuel s out_of_fuel h = absurd h

-- `Unmarshal` into an `interface{}` ends on every input.
pub unmarshal_interface-ne-out_of_fuel :
    (input spare : Bytes) → unmarshal_interface input spare ≢ out_of_fuel
unfolding unmarshal_interface value_into_interface
unmarshal_interface-ne-out_of_fuel input spare =
    let s : DecodeState = record { input = input; spare = spare; off = 0 } in
    let l = length input in
    finish-ne-out_of_fuel s _ (
      (Ends-bind l peek _ (Ends-peek l) (
          Ends-store_of_type l (value_interface (length input + 1))
            (λ l' e. value_interface-Ends (length input + 1) l' (omega arith)))).at
        s (omega arith))
