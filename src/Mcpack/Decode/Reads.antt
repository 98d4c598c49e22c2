-- ===== src/Mcpack/Decode/Reads.antt =====
-- Decoder steps as the bytes that they take from the front of what is left of the input.
use gomcpack.Prelude.{
  ℕ, ◌+◌, ◌≤◌, ◌≡◌, refl, ap, sym, ◌∙◌, [], ◌∷◌, ◌++◌, append_assoc, arith, length, length-append,
  length-drop, drop, drop-drop, drop-append,
}
use gomcpack.Go.{Go, done}
use gomcpack.Go.Slice.{Bytes, index-of_drop, slice_from_lem, slice_to_cap-of_drop}
use gomcpack.Go.Proc.{◌>>=◌, ◌>>◌, pure, lift, and_then}
use gomcpack.Mcpack.Decode.State.{DecodeState, Decoder, peek, read, advance, slice_data}

abbrev pub state : Bytes → Bytes → ℕ → DecodeState
state input spare off = record { input = input; spare = spare; off = off }

-- `xs` stands at the offset, which is not behind the end of the input.
pub record Stands (input : Bytes) (off : ℕ) (xs : Bytes) : Type 0 where
  pub rest : Bytes
  pub found : drop off input ≡ xs ++ rest
  pub within : off ≤ length input

-- `m` returns `a` where `xs` stands, and stays where it is.
pub record Sees {A : Type 0} (m : Decoder A) (xs : Bytes) (a : A) : Type 0 where
  pub at :
      (input spare : Bytes) (off : ℕ)
      → Stands input off xs
      → m (state input spare off) ≡ done (a, state input spare off)

-- `m` returns `a` where `xs` stands, and moves behind it.
pub record Reads {A : Type 0} (m : Decoder A) (xs : Bytes) (a : A) : Type 0 where
  pub at :
      (input spare : Bytes) (off : ℕ)
      → Stands input off xs
      → m (state input spare off) ≡ done (a, state input spare (off + length xs))

pub Stands-front :
    {input : Bytes} {off : ℕ} (xs ys : Bytes) → Stands input off (xs ++ ys) → Stands input off xs
Stands-front xs ys s = record {
  rest = ys ++ s.rest;
  found = s.found ∙ append_assoc xs ys s.rest;
  within = s.within;
}

pub Stands-back :
    {input : Bytes} {off : ℕ} (xs ys : Bytes)
    → Stands input off (xs ++ ys)
    → Stands input (off + length xs) ys
Stands-back {input} {off} xs ys s = record {
  rest = s.rest;
  found =
      drop-drop off (length xs) input
      ∙ ap (λ (t : Bytes). drop (length xs) t) (s.found ∙ append_assoc xs ys s.rest)
      ∙ drop-append xs (ys ++ s.rest);
  within = omega (
    arith,
    ap length s.found,
    length-drop off input,
    length-append (xs ++ ys) s.rest,
    length-append xs ys,
    s.within,
  );
}

module _ {A B : Type 0} {m : Decoder A} (f : A → Decoder B) {a : A} {b : B} where
  pub Reads-bind : (xs ys : Bytes) → Reads m xs a → Reads (f a) ys b → Reads (m >>= f) (xs ++ ys) b
  Reads-bind xs ys rm rf = record {
    at = λ input spare off s.
        ap (λ r. and_then r f) (rm.at input spare off (Stands-front xs ys s))
        ∙ rf.at input spare (off + length xs) (Stands-back xs ys s)
        ∙ ap (λ (n : ℕ). done (b, state input spare n)) {x = off + length xs + length ys}
            {y = off + length (xs ++ ys)} (omega (arith, length-append xs ys));
  }

  pub Sees-bind :
      (xs ys : Bytes) → Sees m xs a → Reads (f a) (xs ++ ys) b → Reads (m >>= f) (xs ++ ys) b
  Sees-bind xs ys sm rf = record {
    at = λ input spare off s.
        ap (λ r. and_then r f) (sm.at input spare off (Stands-front xs ys s))
        ∙ rf.at input spare off s;
  }

module _ {B : Type 0} {m : Decoder (Unit {0})} {n : Decoder B} {b : B} where
  pub Reads-then : (xs ys : Bytes) → Reads m xs tt → Reads n ys b → Reads (m >> n) (xs ++ ys) b
  Reads-then xs ys rm rn = record { at = (Reads-bind (λ _. n) xs ys rm rn).at }

pub Reads-pure : {A : Type 0} (a : A) → Reads (pure a) [] a
Reads-pure a = record {
  at = λ input spare off s.
      ap (λ (n : ℕ). done (a, state input spare n)) {x = off} {y = off + 0} (omega arith);
}

pub Reads-advance : (n : ℕ) (xs : Bytes) → length xs ≡ n → Reads (advance n) xs tt
unfolding advance
Reads-advance n xs e = record {
  at = λ input spare off s. ap (λ (k : ℕ). done (tt, state input spare (off + k))) (sym e);
}

pub Sees-peek : (x : ℕ) → Sees peek (x ∷ []) x
unfolding peek
Sees-peek x = record { at = λ input spare off s. rw (index-of_drop input off s.found) }

-- A load behind the bytes `zs`.
pub Sees-read :
    (get : Bytes → Go ℕ) (zs xs : Bytes) (v : ℕ)
    → ((r : Bytes) → get (xs ++ r) ≡ done v)
    → Sees (read get (length zs)) (zs ++ xs) v
unfolding read
Sees-read get zs xs v h = record {
  at = λ input spare off s.
      let there = Stands-back zs xs s in
      rw (slice_from_lem input (off + length zs) there.within, there.found, h there.rest);
}

-- A slice of the input that ends where `xs` ends.
pub slice_data-of_Stands :
    (input spare xs : Bytes) (off lo hi : ℕ)
    → Stands input lo xs
    → hi ≡ lo + length xs
    → slice_data lo hi (state input spare off) ≡ done (xs, state input spare off)
unfolding slice_data
slice_data-of_Stands input spare xs off lo hi s e =
    rw (slice_to_cap-of_drop input spare lo hi (length xs) xs s.rest s.found s.within refl e)

pub Reads-map :
    {A B : Type 0} {m : Decoder A} (f : A → B) {a : A} {xs : Bytes}
    → Reads m xs a
    → Reads (m >>= λ v. pure (f v)) xs (f a)
Reads-map f rm = record {
  at = λ input spare off s. ap (λ r. and_then r (λ v. pure (f v))) (rm.at input spare off s);
}

-- A value that is stored by a statement which neither reads nor moves.
pub Reads-set :
    {A B : Type 0} {m : Decoder A} (set : A → Go B) {a : A} {b : B} {xs : Bytes}
    → set a ≡ done b
    → Reads m xs a
    → Reads (m >>= λ v. lift (set v)) xs b
Reads-set set {b} {xs} e rm = record {
  at = λ input spare off s.
      ap (λ r. and_then r (λ v. lift (set v))) (rm.at input spare off s)
      ∙ ap (λ (r : Go _). lift r (state input spare (off + length xs))) e;
}

-- A step that sees all that the following step reads.
pub Sees-whole :
    {A B : Type 0} {m : Decoder A} (f : A → Decoder B) {a : A} {b : B} {xs : Bytes}
    → Sees m xs a
    → Reads (f a) xs b
    → Reads (m >>= f) xs b
Sees-whole f sm rf = record {
  at = λ input spare off s.
      ap (λ r. and_then r f) (sm.at input spare off s) ∙ rf.at input spare off s;
}

pub Reads-skip_set :
    {A : Type 0} (r : Go A) {a : A} (n : ℕ) (xs : Bytes)
    → r ≡ done a
    → length xs ≡ n
    → Reads (advance n >> lift r) xs a
Reads-skip_set r {a} n xs e h = record {
  at = λ input spare off s.
      ap (λ t. and_then t (λ _. lift r)) ((Reads-advance n xs h).at input spare off s)
      ∙ ap (λ (t : Go _). lift t (state input spare (off + length xs))) e;
}

pub Reads-skip :
    {A : Type 0} (a : A) (n : ℕ) (xs : Bytes) → length xs ≡ n → Reads (advance n >> pure a) xs a
Reads-skip a n xs e = record {
  at = λ input spare off s.
      ap (λ r. and_then r (λ _. pure a)) ((Reads-advance n xs e).at input spare off s);
}
