-- ===== src/Mcpacknpc/Checked.antt =====
-- Which functions `NewHandler` of mcpacknpc/handler.go accepts.
use gomcpack.Mcpack.Fold.Unicode.{decode_rune}
use gomcpack.Prelude.{
  ◌⊎◌, inl, inr, ◌||◌, length, ◌==◌, arith, ℕ, ◌≡◌, refl, subst, ◌↔◌, Bool, true, false, not, List,
  [], ◌∷◌, if◌then◌else◌,
}
use gomcpack.Go.{Error, Returns, ok, err}
use gomcpack.Mcpacknpc.Handler.{
  ParamType, ResultType, error_type, other_type, FuncType, HandlerTypes, is_exported,
  is_exported_or_builtin_type, base, pointer, is_pointer, check_outs, new_handler,
}

-- The type behind all pointers has a name that begins with an upper case rune, or no package.
abbrev pub IsVisible : (ℕ → Bool) → ParamType → Type 0
IsVisible is_upper (base name pkg_path t) = (is_upper (decode_rune name).0 ≡ true) ⊎ (pkg_path ≡ [])
IsVisible is_upper (pointer t) = IsVisible is_upper t

-- A function of an argument and the address of a reply, both of exported or builtin types, that
-- returns an `error`, with the two types.
pub record IsAccepted (is_upper : ℕ → Bool) (ft : FuncType) (h : HandlerTypes) : Type 0 where
  pub two_ins : ft.ins ≡ h.arg_type ∷ h.reply_type ∷ []
  pub argument : IsVisible is_upper h.arg_type
  pub target : ParamType
  pub address : h.reply_type ≡ pointer target
  pub reply : IsVisible is_upper target
  pub one_out : ft.outs ≡ error_type ∷ []

check_outs-ok :
    (a r : ParamType) (outs : List ResultType) {h : HandlerTypes}
    → check_outs a r outs ≡ ok h
    → (outs ≡ error_type ∷ []) × (record { arg_type = a; reply_type = r } ≡ h)
unfolding check_outs
check_outs-ok a r [] e = cc
check_outs-ok a r (error_type ∷ []) e = (refl, cc)
check_outs-ok a r (other_type ∷ []) e = cc
check_outs-ok a r (error_type ∷ x ∷ outs) e = cc
check_outs-ok a r (other_type ∷ x ∷ outs) e = cc

-- A test that was passed.
passed :
    {A : Type 0} (b : Bool) (e : Error) (x : Returns A) {a : A}
    → (if not b then err e else x) ≡ ok a
    → (b ≡ true) × (x ≡ ok a)
passed true e x h = (refl, h)
passed false e x h = cc

module _ (is_upper : ℕ → Bool) where
  is_exported_or_builtin_type-IsVisible :
      (t : ParamType) → is_exported_or_builtin_type is_upper t ≡ true → IsVisible is_upper t
  unfolding is_exported_or_builtin_type is_exported
  is_exported_or_builtin_type-IsVisible (base name [] t) e = inr refl
  is_exported_or_builtin_type-IsVisible (base name (x ∷ pkg_path) t) e =
      inl (upper (is_upper (decode_rune name).0) e)
    where
      upper : (b : Bool) → (b || (length (x ∷ pkg_path) == 0)) ≡ true → b ≡ true
      upper true h = refl
      upper false h = absurd (ground arith)
  is_exported_or_builtin_type-IsVisible (pointer t) e = is_exported_or_builtin_type-IsVisible t e

  IsVisible-is_exported_or_builtin_type :
      (t : ParamType) → IsVisible is_upper t → is_exported_or_builtin_type is_upper t ≡ true
  unfolding is_exported_or_builtin_type is_exported
  IsVisible-is_exported_or_builtin_type (base name pkg_path t) (inl e) = rw e refl
  IsVisible-is_exported_or_builtin_type (base name pkg_path t) (inr e) =
      rw e (no_package (is_upper (decode_rune name).0))
    where
      no_package : (b : Bool) → (b || true) ≡ true
      no_package true = refl
      no_package false = refl
  IsVisible-is_exported_or_builtin_type (pointer t) h = IsVisible-is_exported_or_builtin_type t h

  pointer_target : (t : ParamType) → is_pointer t ≡ true → (u : ParamType) × (t ≡ pointer u)
  pointer_target (base name pkg_path t) e = absurd (cc)
  pointer_target (pointer t) e = (t, refl)

  accepted :
      (ins : List ParamType) (outs : List ResultType) (h : HandlerTypes)
      → new_handler is_upper (record { ins = ins; outs = outs }) ≡ ok h
      → IsAccepted is_upper (record { ins = ins; outs = outs }) h
  unfolding new_handler
  accepted [] outs h e = cc
  accepted (a ∷ []) outs h e = cc
  accepted (a ∷ r ∷ x ∷ ins) outs h e = cc
  accepted (a ∷ r ∷ []) outs h e =
      let (e1, rest1) = passed (is_exported_or_builtin_type is_upper a) _ _ e in
      let (e2, rest2) = passed (is_pointer r) _ _ rest1 in
      let (e3, rest3) = passed (is_exported_or_builtin_type is_upper r) _ _ rest2 in
      let (e4, same) = check_outs-ok a r outs rest3 in
      let (u, address) = pointer_target r e2 in
      subst (λ h. IsAccepted is_upper (record { ins = a ∷ r ∷ []; outs = outs }) h) same
        (record {
          two_ins = refl;
          argument = is_exported_or_builtin_type-IsVisible a e1;
          target = u;
          address = address;
          reply =
              subst (λ (t : ParamType). IsVisible is_upper t) address
                (is_exported_or_builtin_type-IsVisible r e3);
          one_out = e4;
        })

  accepts :
      (ins : List ParamType) (outs : List ResultType) (a r u : ParamType)
      → ins ≡ a ∷ r ∷ []
      → IsVisible is_upper a
      → r ≡ pointer u
      → IsVisible is_upper u
      → outs ≡ error_type ∷ []
      → new_handler is_upper (record { ins = ins; outs = outs })
        ≡ ok (record { arg_type = a; reply_type = r })
  unfolding new_handler check_outs
  accepts ins outs a r u two argument address reply one =
      let visible : is_exported_or_builtin_type is_upper (pointer u) ≡ true =
        IsVisible-is_exported_or_builtin_type (pointer u) reply in
      rw (two, one, address, IsVisible-is_exported_or_builtin_type a argument, visible) refl

  -- `NewHandler` accepts a function if and only if it has two parameters, the second of pointer type,
  -- and returns one `error`, and the type of each parameter, without its pointers, has a name that
  -- begins with an upper case rune or has no package; then it keeps the two types.
  pub new_handler-IsAccepted :
      (ft : FuncType) (h : HandlerTypes)
      → (new_handler is_upper ft ≡ ok h) ↔ IsAccepted is_upper ft h
  new_handler-IsAccepted ft h = (
    accepted ft.ins ft.outs h,
    λ is.
        accepts ft.ins ft.outs h.arg_type h.reply_type is.target is.two_ins is.argument is.address
          is.reply is.one_out,
  )
