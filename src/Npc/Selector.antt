-- ===== src/Npc/Selector.antt =====
-- npc/selector.go: `ServerList`. An address is a byte string; the resolvers of the package net and the
-- random number are parameters. The lock leaves no trace: each method runs alone.
pub mod Picked
use gomcpack.Prelude.{
  ℕ, Bool, true, false, Option, none, some, List, [], ◌∷◌, ◌||◌, length, get_elem?, ◌==◌,
  if◌then◌else◌,
}
use gomcpack.Go.{Go, done, panic, runtime_error, Error, no_servers, Returns, ok, err}
use gomcpack.Go.Slice.{Bytes}

-- `strings.Contains(server, "/")`
unfoldable pub has_slash : Bytes → Bool
has_slash [] = false
has_slash (x ∷ s) = x == b'/' || has_slash s

-- `if err != nil { return err }; naddr[i] = addr`, in front of what the following turns give.
abbrev pub put_address : Returns Bytes → Returns (List Bytes) → Returns (List Bytes)
put_address (err e) rest = err e
put_address (ok addr) (err e) = err e
put_address (ok addr) (ok addrs) = ok (addr ∷ addrs)

-- `net.ResolveUnixAddr` and `net.ResolveTCPAddr`.
module _ (unix tcp : Bytes → Returns Bytes) where
  unfoldable pub resolve : Bytes → Returns Bytes
  resolve server = if has_slash server then unix server else tcp server

  -- The loop of `SetServers`: the addresses in the order of the servers, or the first error.
  unfoldable pub resolve_all : List Bytes → Returns (List Bytes)
  resolve_all [] = ok []
  resolve_all (server ∷ servers) =
      let rest = resolve_all servers in put_address (resolve server) rest

  -- `ss.SetServers(servers)`: the error, and `ss.addrs` afterwards.
  unfoldable pub set_servers : List Bytes → List Bytes → Option Error × List Bytes
  set_servers servers old = elim (resolve_all servers) [
    | err e ↦ (some e, old)
    | ok addrs ↦ (none, addrs)
  ]

-- `addrs[i]`
unfoldable pub address : List Bytes → ℕ → Go (Returns Bytes)
address addrs i = elim (get_elem? addrs i) [ none ↦ panic runtime_error | some a ↦ done (ok a) ]

-- `ss.PickServer()` with `rand.Int63n`.
unfoldable pub pick_server : (ℕ → ℕ) → List Bytes → Go (Returns Bytes)
unfolding address
pick_server int63n addrs =
    if length addrs == 0
    then done (err no_servers)
    else (if length addrs == 1 then address addrs 0 else address addrs (int63n (length addrs)))
