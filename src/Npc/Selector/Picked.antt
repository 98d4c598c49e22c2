-- ===== src/Npc/Selector/Picked.antt =====
-- What `PickServer` returns after `SetServers`.
use gomcpack.Prelude.{
  ℕ, zero, suc, ◌<◌, ◌≡◌, refl, ap, Option, none, some, List, [], ◌∷◌, arith, length, get_elem?,
  ◌==◌, if◌then◌else◌, Bool-cases, inl, inr, subst,
}
use gomcpack.Go.{Go, done, Error, no_servers, Returns, ok, err}
use gomcpack.Go.Slice.{Bytes}
use gomcpack.Npc.Selector.{put_address, resolve, resolve_all, set_servers, address, pick_server}

ok-inj : {A : Type 0} {a b : A} → ok a ≡ ok b → a ≡ b
ok-inj h = cc

put_address-eq-ok :
    (r : Returns Bytes) (rest : Returns (List Bytes)) {addrs : List Bytes}
    → put_address r rest ≡ ok addrs
    → (a : Bytes) × (rest_addrs : List Bytes) × (r ≡ ok a)
      × (rest ≡ ok rest_addrs)
      × (a ∷ rest_addrs ≡ addrs)
put_address-eq-ok (err e) rest h = cc
put_address-eq-ok (ok a) (err e) h = cc
put_address-eq-ok (ok a) (ok rest_addrs) h = (a, rest_addrs, refl, refl, ok-inj h)

-- One of the servers resolves to the address that is returned.
abbrev pub Picks :
    (Bytes → Returns Bytes) → (Bytes → Returns Bytes) → List Bytes → Go (Returns Bytes) → Type 0
Picks unix tcp servers r =
    (i : ℕ) × (server : Bytes) × (addr : Bytes) × (get_elem? servers i ≡ some server)
    × (resolve unix tcp server ≡ ok addr)
    × (r ≡ done (ok addr))

module _ (unix tcp : Bytes → Returns Bytes) where
  -- One address for each server, in their order.
  data AreResolved : List Bytes → List Bytes → Type 0 where
    no_more : AreResolved [] []
    resolved :
        {server addr : Bytes} {servers addrs : List Bytes}
        → resolve unix tcp server ≡ ok addr
        → AreResolved servers addrs
        → AreResolved (server ∷ servers) (addr ∷ addrs)

  resolve_all-AreResolved :
      (servers addrs : List Bytes)
      → resolve_all unix tcp servers ≡ ok addrs
      → AreResolved servers addrs
  unfolding resolve_all
  resolve_all-AreResolved [] addrs h = subst (AreResolved []) (ok-inj h) no_more
  resolve_all-AreResolved (server ∷ servers) addrs h =
      let (a, rest_addrs, e1, e2, e3) =
        put_address-eq-ok (resolve unix tcp server) (resolve_all unix tcp servers) h in
      subst (AreResolved (server ∷ servers)) e3
        (resolved e1 (resolve_all-AreResolved servers rest_addrs e2))

  length-AreResolved :
      {servers addrs : List Bytes} → AreResolved servers addrs → length addrs ≡ length servers
  length-AreResolved no_more = refl
  length-AreResolved (resolved e r) = ap suc (length-AreResolved r)

  -- An address of the list is that of a server.
  nth :
      (i : ℕ) {servers addrs : List Bytes}
      → AreResolved servers addrs
      → i < length addrs
      → (server : Bytes) × (addr : Bytes) × (get_elem? servers i ≡ some server)
        × (get_elem? addrs i ≡ some addr)
        × (resolve unix tcp server ≡ ok addr)
  nth i no_more h = absurd (omega arith)
  nth zero (resolved {server} {addr} e r) h = (server, addr, refl, refl, e)
  nth (suc i) (resolved e r) h = nth i r (omega arith)

  address-nth :
      (i : ℕ) (servers addrs : List Bytes)
      → AreResolved servers addrs
      → i < length addrs
      → Picks unix tcp servers (address addrs i)
  unfolding address
  address-nth i servers addrs r h =
      let (server, addr, e1, e2, e3) = nth i r h in (i, server, addr, e1, e3, rw (e2, address) refl)

-- After a call of `SetServers` that returned no error, `PickServer` returns the address that the
-- resolver gave for one of the servers of that call, whatever number `rand.Int63n` returns below its
-- bound; if there are no servers, it returns the error for that. It does not panic.
pub pick_server-set_servers :
    (unix tcp : Bytes → Returns Bytes) (int63n : ℕ → ℕ) (servers old addrs : List Bytes)
    → ((n : ℕ) → 0 < n → int63n n < n)
    → set_servers unix tcp servers old ≡ (none, addrs)
    → if length servers == 0
      then pick_server int63n addrs ≡ done (err no_servers)
      else Picks unix tcp servers (pick_server int63n addrs)
unfolding pick_server set_servers
pick_server-set_servers unix tcp int63n servers old addrs below h =
    let r : AreResolved unix tcp servers addrs =
      resolve_all-AreResolved unix tcp servers addrs (settled (resolve_all unix tcp servers) h) in
    let same = length-AreResolved unix tcp r in
    rw⁻¹ same (elim (Bool-cases (length addrs == 0)) [
      | inl e ↦ rw e refl
      | inr e ↦ elim (Bool-cases (length addrs == 1)) [
        | inl f ↦ rw (e, f) (address-nth unix tcp 0 servers addrs r (ground arith))
        | inr f ↦
            rw (e, f)
              (address-nth unix tcp (int63n (length addrs)) servers addrs r
                (below (length addrs) (ground arith)))
      ]
    ])
  where
    settled :
        (o : Returns (List Bytes))
        → ◌≡◌ {A = Option Error × List Bytes}
            (elim o [ err e ↦ (some e, old) | ok rest_addrs ↦ (none, rest_addrs) ])
            (none, addrs)
        → o ≡ ok addrs
    settled (err e) h = cc
    settled (ok rest_addrs) h = cc
