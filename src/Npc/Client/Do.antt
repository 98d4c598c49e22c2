-- ===== src/Npc/Client/Do.antt =====
-- What becomes of the connection of a call.
use gomcpack.Prelude.{ℕ, ◌≡◌, refl, [], ◌∷◌}
use gomcpack.Go.{done, Returns, ok, err}
use gomcpack.Go.Slice.{Bytes}
use gomcpack.Npc.Message.{Request, Response}
use gomcpack.Npc.Client.{
  lookup, insert, Client, close_conn, put_free_conn, get_free_conn, get_conn, resumable_error,
  cond_release, Line, exchange, do_request,
}
use gomcpack.Npc.Client.Pool.{lookup-insert}

-- After a response the connection is the only idle one of its address; after an error it is closed and
-- in no pool.
abbrev pub Settled : Returns Response → Bytes → ℕ → Client → Client → Type 0
Settled (ok resp) addr cn c c' = (lookup addr c'.freeconn ≡ cn ∷ []) × (c'.closed ≡ c.closed)
Settled (err e) addr cn c c' = (c'.freeconn ≡ c.freeconn) × (c'.closed ≡ cn ∷ c.closed)

dialled :
    (addr : Bytes) (cn : ℕ) (c : Client)
    → lookup addr c.freeconn ≡ []
    → get_conn addr (ok cn) c ≡ done (ok cn, c)
unfolding get_conn get_free_conn
dialled addr cn c h = rw h refl

-- Where an address has no idle connection, `Do` dials, returns what the exchange on the new connection
-- returns, a response or an error, and then keeps the connection for the next call or closes it.
pub do_request-Settled :
    (addr : Bytes) (cn : ℕ) (lines : ℕ → Line) (req : Request) (c : Client) (r : Returns Response)
    → lookup addr c.freeconn ≡ []
    → exchange (lines cn) req ≡ done r
    → (c' : Client) × (do_request (ok addr) (ok cn) lines req c ≡ done (r, c'))
      × Settled r addr cn c c'
unfolding do_request cond_release put_free_conn close_conn resumable_error
do_request-Settled addr cn lines req c (ok resp) h run = (
  record c { freeconn = insert addr (cn ∷ []) c.freeconn },
  rw (dialled addr cn c h, run, h) refl,
  (lookup-insert addr (cn ∷ []) c.freeconn, refl),
)
do_request-Settled addr cn lines req c (err e) h run =
    (record c { closed = cn ∷ c.closed }, rw (dialled addr cn c h, run) refl, (refl, refl))
