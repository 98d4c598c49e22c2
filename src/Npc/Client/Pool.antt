-- ===== src/Npc/Client/Pool.antt =====
-- What the pool of idle connections keeps.
use gomcpack.Prelude.{
  ℕ, ◌-◌, ◌≤◌, ◌<◌, ◌≡◌, refl, ap, sym, ◌∙◌, ◌⊎◌, inl, inr, false, Option, none, some, List, [],
  ◌∷◌, ◌++◌, arith, length, length-append, take-append, drop-append, append_assoc, leb, leb→gt,
  ◌==◌, bytes_eq, bytes_eq_refl, Bool-cases,
}
use gomcpack.Go.{done, Error, Returns, ok, err}
use gomcpack.Go.Slice.{Bytes, index-of_drop}
use gomcpack.Npc.Client.{
  FreeConns, lookup, insert, Client, close_conn, put_free_conn, get_free_conn, get_conn,
  resumable_error, cond_release, with_conn, all_conns, close,
}

pub lookup-insert :
    (k : Bytes) (conns : List ℕ) (m : FreeConns) → lookup k (insert k conns m) ≡ conns
unfolding lookup insert
lookup-insert k conns [] = rw (bytes_eq_refl k) refl
lookup-insert k conns ((j, old) ∷ m) = elim (Bool-cases (bytes_eq j k)) [
  | inl e ↦ rw (e, e) refl
  | inr e ↦ rw (e, e) (lookup-insert k conns m)
]

lookup-insert-cases :
    (a k : Bytes) (conns : List ℕ) (m : FreeConns)
    → (lookup a (insert k conns m) ≡ conns) ⊎ (lookup a (insert k conns m) ≡ lookup a m)
unfolding lookup insert
lookup-insert-cases a k conns [] = elim (Bool-cases (bytes_eq k a)) [
  | inl e ↦ inl (rw e refl)
  | inr e ↦ inr (rw e refl)
]
lookup-insert-cases a k conns ((j, old) ∷ m) = elim (Bool-cases (bytes_eq j k)) [
  | inl e ↦ elim (Bool-cases (bytes_eq j a)) [
    | inl f ↦ inl (rw e (rw f refl))
    | inr f ↦ inr (rw e (rw f refl))
  ]
  | inr e ↦ elim (Bool-cases (bytes_eq j a)) [
    | inl f ↦ inr (rw e (rw f refl))
    | inr f ↦ elim (lookup-insert-cases a k conns m) [
      | inl h ↦ inl (rw e (rw f h))
      | inr h ↦ inr (rw e (rw f h))
    ]
  ]
]

-- At most two connections are idle for each address.
abbrev pub IsPool : Client → Type 0
IsPool c = (a : Bytes) → length (lookup a c.freeconn) ≤ 2

insert-IsPool :
    (k : Bytes) (conns : List ℕ) (c : Client)
    → IsPool c
    → length conns ≤ 2
    → IsPool (record c { freeconn = insert k conns c.freeconn })
insert-IsPool k conns c pool short a = elim (lookup-insert-cases a k conns c.freeconn) [
  | inl h ↦ rw h short
  | inr h ↦ rw h (pool a)
]

put_free_conn-IsPool :
    (addr : Bytes) (cn : ℕ) (c : Client) → IsPool c → IsPool (put_free_conn addr cn c)
unfolding put_free_conn close_conn
put_free_conn-IsPool addr cn c pool =
    let freelist = lookup addr c.freeconn in
    elim (Bool-cases (leb 2 (length freelist))) [
      | inl e ↦ rw e pool
      | inr e ↦ rw e (
          insert-IsPool addr (freelist ++ cn ∷ []) c pool
            (omega (arith, leb→gt 2 (length freelist) e, length-append freelist (cn ∷ []))))
    ]

-- The last connection is handed out first.
get_free_conn-last :
    (addr : Bytes) (front : List ℕ) (cn : ℕ) (c : Client)
    → lookup addr c.freeconn ≡ front ++ cn ∷ []
    → get_free_conn addr c ≡ done (some cn, record c { freeconn = insert addr front c.freeconn })
unfolding get_free_conn
get_free_conn-last addr front cn c h =
    let n : length (front ++ cn ∷ []) - 1 ≡ length front =
      omega (arith, length-append front (cn ∷ [])) in
    let full : (length (front ++ cn ∷ []) == 0) ≡ false =
      ground (arith, length-append front (cn ∷ [])) in
    rw h (
      rw full (
        rw n (
          rw
            (
              index-of_drop (front ++ cn ∷ []) (length front) (drop-append front (cn ∷ [])),
              take-append front (cn ∷ []),
            )
            refl)))

-- Where the address has room, a connection that is put into the pool is the next that is taken from
-- it, and taking it leaves the connections of this address as they were before.
pub get_free_conn-put_free_conn :
    (addr : Bytes) (cn : ℕ) (c : Client)
    → length (lookup addr c.freeconn) < 2
    → (c' : Client) × (get_free_conn addr (put_free_conn addr cn c) ≡ done (some cn, c'))
      × (lookup addr c'.freeconn ≡ lookup addr c.freeconn)
unfolding put_free_conn
get_free_conn-put_free_conn addr cn c room =
    let freelist = lookup addr c.freeconn in
    let full : FreeConns = insert addr (freelist ++ cn ∷ []) c.freeconn in
    let open_place : leb 2 (length freelist) ≡ false = ground arith in
    (
      record c { freeconn = insert addr freelist full },
      rw open_place (
          get_free_conn-last addr freelist cn (record c { freeconn = full })
            (lookup-insert addr (freelist ++ cn ∷ []) c.freeconn)),
      lookup-insert addr freelist full,
    )

get_free_conn-IsPool :
    (addr : Bytes) (c : Client)
    → IsPool c
    → (r : Option ℕ) × (c' : Client) × (get_free_conn addr c ≡ done (r, c')) × IsPool c'
get_free_conn-IsPool addr c pool = elim (last_of (lookup addr c.freeconn)) [
  | inl none_left ↦ (none, c, unfold get_free_conn in rw none_left refl, pool)
  | inr (front, cn, h) ↦ (
    some cn,
    record c { freeconn = insert addr front c.freeconn },
    get_free_conn-last addr front cn c h,
    insert-IsPool addr front c pool
        (omega (arith, pool addr, ap length h, length-append front (cn ∷ []))),
  )
]
  where
    last_of : (l : List ℕ) → (l ≡ []) ⊎ ((front : List ℕ) × (cn : ℕ) × (l ≡ front ++ cn ∷ []))
    last_of [] = inl refl
    last_of (x ∷ l) = elim (last_of l) [
      | inl e ↦ inr ([], x, ap (λ (t : List ℕ). x ∷ t) e)
      | inr (front, cn, e) ↦ inr (x ∷ front, cn, ap (λ (t : List ℕ). x ∷ t) e)
    ]

cond_release-IsPool :
    (e : Option Error) (addr : Bytes) (cn : ℕ) (c : Client)
    → IsPool c
    → IsPool (cond_release e addr cn c)
unfolding cond_release resumable_error close_conn
cond_release-IsPool none addr cn c pool = put_free_conn-IsPool addr cn c pool
cond_release-IsPool (some e) addr cn c pool = pool

-- Whatever the selector, the dialling and the call on the connection return, `withConn` returns
-- without a panic, and where at most two connections were idle for each address, at most two are.
pub with_conn-IsPool :
    (picked : Returns Bytes) (dialed : Returns ℕ) (fn : ℕ → Option Error) (c : Client)
    → IsPool c
    → (e : Option Error) × (c' : Client) × (with_conn picked dialed fn c ≡ done (e, c')) × IsPool c'
unfolding with_conn get_conn
with_conn-IsPool (err e) dialed fn c pool = (some e, c, refl, pool)
with_conn-IsPool (ok addr) dialed fn c pool =
    let (r, c1, h, kept) = get_free_conn-IsPool addr c pool in taken r dialed c1 h kept
  where
    taken :
        (r : Option ℕ) (dialed : Returns ℕ) (c1 : Client)
        → get_free_conn addr c ≡ done (r, c1)
        → IsPool c1
        → (e : Option Error) × (c' : Client) × (with_conn (ok addr) dialed fn c ≡ done (e, c'))
          × IsPool c'
    taken none (err e) c1 h kept = (some e, c1, rw h refl, kept)
    taken none (ok cn) c1 h kept = (
      fn cn,
      cond_release (fn cn) addr cn c1,
      rw h refl,
      cond_release-IsPool (fn cn) addr cn c1 kept,
    )
    taken (some cn) dialed c1 h kept = (
      fn cn,
      cond_release (fn cn) addr cn c1,
      rw h refl,
      cond_release-IsPool (fn cn) addr cn c1 kept,
    )

lookup-all_conns :
    (a : Bytes) (m : FreeConns)
    → (xs : List ℕ) × (ys : List ℕ) × (all_conns m ≡ xs ++ (lookup a m ++ ys))
unfolding lookup all_conns
lookup-all_conns a [] = ([], [], refl)
lookup-all_conns a ((j, conns) ∷ m) = elim (Bool-cases (bytes_eq j a)) [
  | inl e ↦ ([], all_conns m, rw e refl)
  | inr e ↦
      let (xs, ys, h) = lookup-all_conns a m in
      (
        conns ++ xs,
        ys,
        rw e (ap (λ (t : List ℕ). conns ++ t) h ∙ sym (append_assoc conns xs (lookup a m ++ ys))),
      )
]

-- `Close` leaves the connections that it closes in the pool: where an address has an idle
-- connection, the next call on this address gets the last of them, which is closed.
pub get_free_conn-close :
    (addr : Bytes) (front : List ℕ) (cn : ℕ) (c : Client)
    → lookup addr c.freeconn ≡ front ++ cn ∷ []
    → (c' : Client) × (xs : List ℕ) × (ys : List ℕ) × (get_free_conn addr (close c)
        ≡ done (some cn, c'))
      × (c'.closed ≡ xs ++ cn ∷ ys)
unfolding close
get_free_conn-close addr front cn c h =
    let (xs, ys, e) = lookup-all_conns addr c.freeconn in
    (
      record (close c) { freeconn = insert addr front c.freeconn },
      xs ++ front,
      ys ++ c.closed,
      get_free_conn-last addr front cn (close c) h,
      ap (λ (t : List ℕ). t ++ c.closed)
            (e
              ∙ ap (λ (t : List ℕ). xs ++ (t ++ ys)) h
              ∙ ap (λ (t : List ℕ). xs ++ t) (append_assoc front (cn ∷ []) ys)
              ∙ sym (append_assoc xs front (cn ∷ ys)))
          ∙ append_assoc (xs ++ front) (cn ∷ ys) c.closed,
    )
