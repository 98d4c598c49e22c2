-- ===== src/Npc/Client.antt =====
-- npc/client.go: the pool of idle connections, and how a call takes a connection and gives it back.
-- A connection is a number, an address its string. The nil map is the empty one: only
-- `putFreeConn` writes to it, and makes it first. Deadlines and the mutex leave no trace in the pool:
-- each method runs alone.
pub mod Pool
pub mod Do
use gomcpack.Prelude.{
  ℕ, ◌+◌, ◌-◌, Bool, true, false, Option, none, some, List, [], ◌∷◌, ◌++◌, length, take, leb, ◌==◌,
  bytes_eq, if◌then◌else◌,
}
use gomcpack.Go.{Go, done, panic, ◌>>=◌, Error, Returns, ok, err}
use gomcpack.Go.Slice.{Bytes, index}
use gomcpack.Npc.Message.{Writer, Request, write_request, Response, read_response}

abbrev pub max_idle_conns_per_addr : ℕ
max_idle_conns_per_addr = 2

-- `map[string][]*clientConn`
abbrev pub FreeConns : Type 0
FreeConns = List (Bytes × List ℕ)

-- `m[k]`, nil where there is no entry.
unfoldable pub lookup : Bytes → FreeConns → List ℕ
lookup k [] = []
lookup k ((j, conns) ∷ m) = if bytes_eq j k then conns else lookup k m

-- `m[k] = conns`
unfoldable pub insert : Bytes → List ℕ → FreeConns → FreeConns
insert k conns [] = (k, conns) ∷ []
insert k conns ((j, old) ∷ m) = if bytes_eq j k then (j, conns) ∷ m else (j, old) ∷ insert k conns m

-- The pool, and the connections that have been closed.
pub record Client : Type 0 where
  pub freeconn : FreeConns
  pub closed : List ℕ

-- `cn.close()`
unfoldable pub close_conn : ℕ → Client → Client
close_conn cn c = record c { closed = cn ∷ c.closed }

unfoldable pub put_free_conn : Bytes → ℕ → Client → Client
put_free_conn addr cn c =
    let freelist = lookup addr c.freeconn in
    if leb max_idle_conns_per_addr (length freelist)
    then close_conn cn c
    else record c { freeconn = insert addr (freelist ++ cn ∷ []) c.freeconn }

unfoldable pub get_free_conn : Bytes → Client → Go (Option ℕ × Client)
get_free_conn addr c =
    let freelist = lookup addr c.freeconn in
    if length freelist == 0
    then done (none, c)
    else (index freelist (length freelist - 1) >>= λ cn. done (
      some cn,
      record c { freeconn = insert addr (take (length freelist - 1) freelist) c.freeconn },
    ))

-- `c.getConn(addr)`, where `dialed` is what `c.dial(addr)` returns.
unfoldable pub get_conn : Bytes → Returns ℕ → Client → Go (Returns ℕ × Client)
get_conn addr dialed c = get_free_conn addr c >>= after
  where
    after : Option ℕ × Client → Go (Returns ℕ × Client)
    after (some cn, c) = done (ok cn, c)
    after (none, c) = done (dialed, c)

unfoldable pub resumable_error : Error → Bool
resumable_error e = false

-- `cn.condRelease(&err)`
unfoldable pub cond_release : Option Error → Bytes → ℕ → Client → Client
cond_release none addr cn c = put_free_conn addr cn c
cond_release (some e) addr cn c =
    if resumable_error e then put_free_conn addr cn c else close_conn cn c

-- `c.withConn(fn)`: `picked` is what the selector returns, and `fn` the error of the call on a
-- connection.
unfoldable pub with_conn :
    Returns Bytes → Returns ℕ → (ℕ → Option Error) → Client → Go (Option Error × Client)
with_conn (err e) dialed fn c = done (some e, c)
with_conn (ok addr) dialed fn c = get_conn addr dialed c >>= after
  where
    after : Returns ℕ × Client → Go (Option Error × Client)
    after (err e, c) = done (some e, c)
    after (ok cn, c) = done (fn cn, cond_release (fn cn) addr cn c)

-- The two ends of a connection, of which the other sends back a function of what it is sent. What was
-- written is there after `rw.Flush()`.
pub record Line : Type 0 where
  pub writer : Writer
  pub answer : Bytes → Bytes

-- What `Do` does on a connection.
unfoldable pub exchange : Line → Request → Go (Returns Response)
exchange line req = write_request req line.writer >>= sent
  where
    sent : Option Error × Writer → Go (Returns Response)
    sent (some e, w) = done (err e)
    sent (none, w) = read_response (line.answer w.out) >>= λ r. done r.0

abbrev pub error_of : {A : Type 0} → Returns A → Option Error
error_of (ok a) = none
error_of (err e) = some e

-- `c.Do(req)`, with what `withConn` does around it. A panic of the call is left out.
unfoldable pub do_request :
    Returns Bytes → Returns ℕ → (ℕ → Line) → Request → Client → Go (Returns Response × Client)
do_request (err e) dialed lines req c = done (err e, c)
do_request (ok addr) dialed lines req c = get_conn addr dialed c >>= after
  where
    after : Returns ℕ × Client → Go (Returns Response × Client)
    after (err e, c) = done (err e, c)
    after (ok cn, c) =
        exchange (lines cn) req >>= λ r. done (r, cond_release (error_of r) addr cn c)

-- The connections of all addresses.
unfoldable pub all_conns : FreeConns → List ℕ
all_conns [] = []
all_conns ((k, conns) ∷ m) = conns ++ all_conns m

-- `c.Close()` closes them and leaves them in the pool.
unfoldable pub close : Client → Client
close c = record c { closed = all_conns c.freeconn ++ c.closed }
