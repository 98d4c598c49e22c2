-- ===== src/Mcpack/Encode/Emits.antt =====
-- Encoder steps as the bytes that they put behind what is written. `Emits m a bs`: where the buffer
-- has room for `bs`, `m` returns `a`, appends `bs` and leaves the bytes written before alone.
use gomcpack.Prelude.{
  ℕ, ◌+◌, ◌≤◌, ◌<◌, ◌≡◌, refl, ap, ◌∙◌, sym, [], ◌∷◌, ◌++◌, append-nil, append_assoc, arith, length,
  length-append, take-append, take-all, subst, split_at, ltb, lt→ltb, le→ltb, if◌then◌else◌,
  Bool-cases, inl, inr,
}
use gomcpack.Go.{Go, done, panic, raised, key_too_long}
use gomcpack.Go.Slice.{Bytes, byte, store-append, slice_from-append, copy-append}
use gomcpack.Go.Proc.{◌>>=◌, ◌>>◌, pure, and_then}
use gomcpack.Mcpack.Wire.{key_len_byte, key_bytes}
use gomcpack.Mcpack.Encode.State.{
  EncodeState, Enc, write_byte, set_type, set_key_len, copy_bytes, set_key, write_number,
}

-- A buffer with `out` written and the bytes `rest` behind the offset.
abbrev pub buf : Bytes → Bytes → EncodeState
buf out rest = record { buffer = out ++ rest; off = length out }

pub record Emits {A : Type 0} (m : Enc A) (a : A) (bs : Bytes) : Type 0 where
  pub at :
      (out rest : Bytes)
      → length bs ≤ length rest
      → (rest' : Bytes) × (m (buf out rest) ≡ done (a, buf (out ++ bs) rest'))
        × (length rest ≡ length bs + length rest')

-- A state is given by what it is equal to.
abbrev pub state : Bytes → ℕ → EncodeState
state b o = record { buffer = b; off = o }

module _ {A : Type 0} (a : A) where
  pub state_path :
      {b b' : Bytes} {o o' : ℕ}
      → b ≡ b'
      → o ≡ o'
      → ◌≡◌ {A = Go (A × EncodeState)} (done (a, state b o)) (done (a, state b' o'))
  state_path p q = λ i. done (a, state (p i) (q i))

  -- The state after `bs` has taken the place of as many bytes behind the offset.
  pub buf_path :
      (out bs rest : Bytes) {o : ℕ}
      → o ≡ length out + length bs
      → ◌≡◌ {A = Go (A × EncodeState)}
          (done (a, state (out ++ (bs ++ rest)) o))
          (done (a, buf (out ++ bs) rest))
  buf_path out bs rest e =
      state_path (sym (append_assoc out bs rest)) (e ∙ sym (length-append out bs))

  pub Emits-pure : Emits (pure a) a []
  Emits-pure = record {
    at = λ out rest room. (
      rest,
      state_path (ap (λ t. t ++ rest) (sym (append-nil out))) (ap length (sym (append-nil out))),
      omega arith,
    );
  }

module _ {A B : Type 0} where
  pub Emits-bind :
      {m : Enc A} (f : A → Enc B) {a : A} {b : B} {xs ys : Bytes}
      → Emits m a xs
      → Emits (f a) b ys
      → Emits (m >>= f) b (xs ++ ys)
  Emits-bind {m} f {a} {b} {xs} {ys} em ef = record {
    at = λ out rest room.
        let (r1, e1, l1) = em.at out rest (omega (arith, length-append xs ys)) in
        let (r2, e2, l2) = ef.at (out ++ xs) r1 (omega (arith, length-append xs ys)) in
        (
          r2,
          ap (λ t. and_then t f) e1 ∙ e2 ∙ ap (λ t. done (b, buf t r2)) (append_assoc out xs ys),
          omega (arith, length-append xs ys),
        );
  }

pub Emits-then :
    {B : Type 0} {m : Enc (Unit {0})} {n : Enc B} {b : B} {xs ys : Bytes}
    → Emits m tt xs
    → Emits n b ys
    → Emits (m >> n) b (xs ++ ys)
Emits-then {n} em en = record { at = (Emits-bind (λ _. n) em en).at }

write_byte-buf :
    (t : ℕ) (out : Bytes) (x : ℕ) (r : Bytes)
    → write_byte t (buf out (x ∷ r)) ≡ done (tt, buf (out ++ t ∷ []) r)
unfolding write_byte
write_byte-buf t out x r = rw store-append (buf_path tt out (t ∷ []) r refl)

pub Emits-write_byte : (t : ℕ) → Emits (write_byte t) tt (t ∷ [])
Emits-write_byte t = record { at = λ out. at out }
  where
    at :
        (out rest : Bytes)
        → 1 ≤ length rest
        → (rest' : Bytes) × (write_byte t (buf out rest) ≡ done (tt, buf (out ++ t ∷ []) rest'))
          × (length rest ≡ 1 + length rest')
    at out [] room = absurd (omega arith)
    at out (x ∷ r) room = (r, write_byte-buf t out x r, omega arith)

pub Emits-set_type : (t : ℕ) → Emits (set_type t) tt (t ∷ [])
unfolding set_type
Emits-set_type = Emits-write_byte

write_key_len :
    (k : Bytes)
    → length k ≤ 254
    → Emits
        (if ltb 0 (length k) then write_byte (byte (length k + 1)) else write_byte 0)
        tt
        (key_len_byte k ∷ [])
write_key_len k fits = elim (Bool-cases (ltb 0 (length k))) [
  | inl some_key ↦ rw some_key (
      subst (λ (n : ℕ). Emits (write_byte (byte (length k + 1))) tt (n ∷ []))
        {x = byte (length k + 1)} {y = length k + 1} (omega arith) (Emits-write_byte _))
  | inr no_key ↦ rw no_key (Emits-write_byte 0)
]

pub Emits-set_key_len :
    (k : Bytes) → length k ≤ 254 → Emits (set_key_len k) (length k) (key_len_byte k ∷ [])
unfolding set_key_len
Emits-set_key_len k fits =
    rw (le→ltb 254 (length k) fits)
      (Emits-then (Emits-pure tt) (Emits-then (write_key_len k fits) (Emits-pure (length k))))

copy_bytes-buf :
    (out k g r : Bytes)
    → length g ≡ length k
    → copy_bytes k (buf out (g ++ r)) ≡ done (tt, buf (out ++ k) r)
unfolding copy_bytes
copy_bytes-buf out k g r e =
    rw (slice_from-append out (g ++ r), copy-append k g r e, take-append out (g ++ r))
      (buf_path tt out k r refl)

pub Emits-copy_bytes : (k : Bytes) → Emits (copy_bytes k) tt k
Emits-copy_bytes k = record {
  at = λ out rest room.
      let (g, r, e, l) = split_at (length k) rest room in
      (
        r,
        ap (λ (t : Bytes). copy_bytes k (buf out t)) e ∙ copy_bytes-buf out k g r l,
        omega (arith, ap length e, length-append g r),
      );
}

pub Emits-set_key : (k : Bytes) → Emits (set_key k (length k)) tt (key_bytes k)
unfolding set_key
Emits-set_key k = elim (Bool-cases (ltb 0 (length k))) [
  | inl some_key ↦ rw some_key (
      Emits-then (rw (take-all k (length k) (omega arith)) (Emits-copy_bytes k))
        (Emits-write_byte 0))
  | inr no_key ↦ rw no_key (Emits-pure tt)
]

-- A `Put` function that writes `xs` at the front of any slice that has room for it.
pub Emits-write_number :
    (put : Bytes → ℕ → Go Bytes) (v : ℕ) (xs : Bytes)
    → ((g r : Bytes) → length g ≡ length xs → put (g ++ r) v ≡ done (xs ++ r))
    → Emits (write_number put (length xs) v) tt xs
unfolding write_number
Emits-write_number put v xs h = record {
  at = λ out rest room.
      let (g, r, e, l) = split_at (length xs) rest room in
      (
        r,
        rw e (
            rw (slice_from-append out (g ++ r), h g r l, take-append out (g ++ r))
              (buf_path tt out xs r refl)),
        omega (arith, ap length e, length-append g r),
      );
}

-- Steps that stop because the key is too long, with room for `n` bytes.
pub record Raises {A : Type 0} (n : ℕ) (m : Enc A) : Type 0 where
  pub at : (out rest : Bytes) → n ≤ length rest → m (buf out rest) ≡ panic (raised key_too_long)

pub Raises-bind :
    {A B : Type 0} {n : ℕ} {m : Enc A} (f : A → Enc B) → Raises n m → Raises n (m >>= f)
Raises-bind f r = record { at = λ out rest room. ap (λ t. and_then t f) (r.at out rest room) }

pub Raises-then :
    {B : Type 0} {n : ℕ} {m : Enc (Unit {0})} (f : Enc B) → Raises n m → Raises n (m >> f)
Raises-then f r = record {
  at = λ out rest room. ap (λ t. and_then t (λ _. f)) (r.at out rest room);
}

pub Raises-after :
    {B : Type 0} {n : ℕ} {m : Enc (Unit {0})} {f : Enc B} {xs : Bytes}
    → Emits m tt xs
    → Raises n f
    → Raises (length xs + n) (m >> f)
Raises-after {f} {xs} em rf = record {
  at = λ out rest room.
      let (r, e, l) = em.at out rest (omega arith) in
      ap (λ t. and_then t (λ _. f)) e ∙ rf.at (out ++ xs) r (omega arith);
}

pub Raises-set_key_len : (k : Bytes) → 254 < length k → Raises 0 (set_key_len k)
unfolding set_key_len
Raises-set_key_len k long = record { at = λ out rest room. rw (lt→ltb 254 (length k) long) }
