-- ===== src/Mcpack/Encode/Writes.antt =====
-- Whole encoders as the bytes that they put behind what is written. They make the room themselves,
-- so `Writes m o` has no premise: `m` appends the bytes of `o`, or stops because a key is too long.
use gomcpack.Prelude.{
  ℕ, ◌+◌, ◌≤◌, ◌<◌, ◌≡◌, ap, ◌∙◌, sym, Option, none, some, [], ◌∷◌, ◌++◌, append-nil, append_assoc,
  arith, length, length-append, ltb, leb, leb→le, leb→gt, Bool-cases, inl, inr,
}
use gomcpack.Go.{Go, done, panic, raised, key_too_long}
use gomcpack.Go.Slice.{Bytes}
use gomcpack.Go.Proc.{◌>>=◌, ◌>>◌, pure, and_then}
use gomcpack.Mcpack.Wire.{key_len_byte, key_bytes, named, joined}
use gomcpack.Mcpack.Encode.State.{EncodeState, Enc, set_type, set_key_len, resize_if_needed}
use gomcpack.Mcpack.Encode.Emits.{
  buf, Emits, Emits-bind, Emits-then, Emits-set_type, Emits-set_key_len, Raises, Raises-bind,
  Raises-after, Raises-set_key_len,
}
use gomcpack.Mcpack.Encode.Room.{resize_if_needed-buf}

abbrev pub Outcome : Go (Unit {0} × EncodeState) → Bytes → Option Bytes → Type 0
Outcome r out none = r ≡ panic (raised key_too_long)
Outcome r out (some xs) = (rest' : Bytes) × (r ≡ done (tt, buf (out ++ xs) rest'))

pub record Writes (m : Enc (Unit {0})) (o : Option Bytes) : Type 0 where
  pub at : (out rest : Bytes) → Outcome (m (buf out rest)) out o

pub Writes-nothing : Writes (pure tt) (some [])
Writes-nothing = record {
  at = λ out rest. (rest, ap (λ (t : Bytes). done (tt, buf t rest)) (sym (append-nil out)));
}

pub Writes-joined :
    (m n : Enc (Unit {0})) (o p : Option Bytes)
    → Writes m o
    → Writes n p
    → Writes (m >> n) (joined o p)
Writes-joined m n none p wm wn = record {
  at = λ out rest. ap (λ t. and_then t (λ _. n)) (wm.at out rest);
}
Writes-joined m n (some xs) none wm wn = record {
  at = λ out rest.
      let (r1, e1) = wm.at out rest in ap (λ t. and_then t (λ _. n)) e1 ∙ wn.at (out ++ xs) r1;
}
Writes-joined m n (some xs) (some ys) wm wn = record {
  at = λ out rest.
      let (r1, e1) = wm.at out rest in
      let (r2, e2) = wn.at (out ++ xs) r1 in
      (
        r2,
        ap (λ t. and_then t (λ _. n)) e1
            ∙ e2
            ∙ ap (λ (t : Bytes). done (tt, buf t r2)) (append_assoc out xs ys),
      );
}

-- An encoder that makes room for `n` bytes first, and then needs no more than that.
pub Writes-leaf :
    (n : ℕ) (m : Enc (Unit {0})) (k xs : Bytes)
    → (length k ≤ 254 → Emits m tt xs)
    → (254 < length k → Raises 1 m)
    → length xs ≤ n
    → 1 ≤ n
    → Writes (resize_if_needed n >> m) (named k xs)
Writes-leaf n m k xs em rm bound pos = elim (Bool-cases (leb (length k) 254)) [
  | inl fits ↦ rw fits (record {
    at = λ out rest.
        let (r1, e1, l1) = resize_if_needed-buf n out rest in
        let (r2, e2, l2) = (em (leb→le (length k) 254 fits)).at out r1 (omega arith) in
        (r2, ap (λ t. and_then t (λ _. m)) e1 ∙ e2);
  })
  | inr long ↦ rw long (record {
    at = λ out rest.
        let (r1, e1, l1) = resize_if_needed-buf n out rest in
        ap (λ t. and_then t (λ _. m)) e1
        ∙ (rm (leb→gt (length k) 254 long)).at out r1 (omega arith);
  })
]

module _ (t : ℕ) (k : Bytes) (f : ℕ → Enc (Unit {0})) where
  -- The type and the length of the name, which every item begins with.
  pub Emits-item :
      {xs : Bytes}
      → Emits (f (length k)) tt xs
      → length k ≤ 254
      → Emits (set_type t >> (set_key_len k >>= f)) tt (t ∷ key_len_byte k ∷ xs)
  Emits-item ef fits = Emits-then (Emits-set_type t) (Emits-bind f (Emits-set_key_len k fits) ef)

  pub Raises-item : 254 < length k → Raises 1 (set_type t >> (set_key_len k >>= f))
  Raises-item long = Raises-after (Emits-set_type t) (Raises-bind f (Raises-set_key_len k long))

  pub Writes-item :
      (n : ℕ) {xs : Bytes}
      → Emits (f (length k)) tt xs
      → 2 + length xs ≤ n
      → Writes
          (resize_if_needed n >> (set_type t >> (set_key_len k >>= f)))
          (named k (t ∷ key_len_byte k ∷ xs))
  Writes-item n {xs} ef bound =
      Writes-leaf n _ k (t ∷ key_len_byte k ∷ xs) (Emits-item ef) Raises-item (omega arith)
        (omega arith)

pub length-key_bytes : (k : Bytes) → length (key_bytes k) ≤ length k + 1
length-key_bytes k = elim (Bool-cases (ltb 0 (length k))) [
  | inl e ↦ rw e (omega (arith, length-append k (0 ∷ [])))
  | inr e ↦ rw e (omega arith)
]
