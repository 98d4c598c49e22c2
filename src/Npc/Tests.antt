-- ===== src/Npc/Tests.antt =====
-- The theorems on npc/ applied to small messages.
mod Server
use gomcpack.Prelude.{
  ℕ, zero, suc, ◌<◌, ◌≡◌, refl, none, some, List, [], ◌∷◌, ◌++◌, arith, take, drop, replicate,
}
use gomcpack.Go.{done, eof, ok, Error}
use gomcpack.Go.Slice.{Bytes}
use gomcpack.Npc.Header.{Header, header_magicnum, unmarshal, marshal}
use gomcpack.Npc.Header.Layout.{IsHeader}
use gomcpack.Npc.Header.RoundTrip.{AreBytes, header-marshal, header-unmarshal}
use gomcpack.Npc.Message.{
  Writer, zero_header, write_request, new_request, read_request, read_response,
}
use gomcpack.Npc.Message.Frames.{wrote, request_header, read_request-write_request}
use gomcpack.Npc.Serve.{serve}
use gomcpack.Npc.Serve.Loop.{IsHandler, AreRequests, stream, answers, serve-stream}
use gomcpack.Npc.Serve.Total.{serve-total}
use gomcpack.Npc.Call.{empty_writer, plain, reply_message, call-reply}
use gomcpack.Prelude.{Option, inl, inr, Bool-cases, bytes_eq, bytes_eq_refl, length}
use gomcpack.Npc.Client.{Client, lookup, with_conn, put_free_conn, get_free_conn, close}
use gomcpack.Npc.Client.Pool.{
  IsPool, with_conn-IsPool, get_free_conn-put_free_conn, get_free_conn-close,
}
use gomcpack.Go.{Returns}
use gomcpack.Npc.Selector.{set_servers, resolve_all, resolve, has_slash, pick_server}
use gomcpack.Npc.Selector.Picked.{Picks, pick_server-set_servers}

abbrev ping : Bytes
ping = b'p' ∷ b'i' ∷ []

abbrev pong : Header → Bytes → Bytes
pong h body = b'p' ∷ body

-- It reads one byte of the body.
abbrev reads_one : Header → Bytes → ℕ
reads_one h body = 1

abbrev ping_header : Header
ping_header = record zero_header { log_id = 7; magic_num = header_magicnum; body_len = 2 }

ping_header-IsHeader : IsHeader ping_header
ping_header-IsHeader = record {
  id_bound = omega arith;
  version_bound = omega arith;
  log_id_bound = omega arith;
  provider_length = refl;
  magic_num_bound = omega arith;
  reserved_bound = omega arith;
  body_len_bound = omega arith;
}

keeps_provider : IsHandler (plain pong reads_one)
keeps_provider h own body p = p

abbrev requests : List (Header × Bytes)
requests = (ping_header, ping) ∷ (ping_header, ping) ∷ []

are_requests : AreRequests requests
are_requests = (ping_header-IsHeader, refl, refl, (ping_header-IsHeader, refl, refl, tt))

serve-stream_example :
    serve 3 (plain pong reads_one) (stream requests) empty_writer
    ≡ done (eof, wrote empty_writer (answers (plain pong reads_one) requests))
serve-stream_example =
    serve-stream (plain pong reads_one) requests empty_writer 3 keeps_provider are_requests refl
      (omega arith)

serve-total_example :
    (e : Error) × (w' : Writer) × (serve 3 (plain pong reads_one) ping empty_writer ≡ done (e, w'))
serve-total_example =
    serve-total (plain pong reads_one) ping empty_writer 3 keeps_provider
      (omega arith, (omega arith, tt)) (omega arith)

call-reply_example :
    (sent : Bytes) × (answered : Bytes) × (write_request (new_request 7 (some ping)) empty_writer
      ≡ done (none, wrote empty_writer sent))
    × (serve 2 (plain pong reads_one) sent empty_writer ≡ done (eof, wrote empty_writer answered))
    × (read_response answered
        ≡ done (ok (reply_message (request_header 7 ping) (pong (request_header 7 ping) ping)), []))
call-reply_example =
    call-reply pong reads_one 7 ping (omega arith) (omega arith) (omega arith) (omega arith)

read_request-write_request_example :
    (xs : Bytes) × (write_request (new_request 7 (some ping)) empty_writer
      ≡ done (none, wrote empty_writer xs))
    × (read_request (xs ++ 9 ∷ []) ≡ done (ok (request_header 7 ping), ping ++ 9 ∷ []))
    × ((request_header 7 ping).body_len ≡ 2)
read_request-write_request_example =
    read_request-write_request 7 ping (9 ∷ []) empty_writer (omega arith) (omega arith) refl

header-marshal_example :
    (b' : Bytes) × (marshal ping_header (replicate 37 1) ≡ done (none, b'))
    × (unmarshal zero_header b' ≡ done (none, ping_header))
    × (drop 36 b' ≡ 1 ∷ [])
header-marshal_example =
    header-marshal ping_header zero_header (replicate 37 1) ping_header-IsHeader refl

-- Bytes that are all one number.
replicate-AreBytes : (n x : ℕ) → x < 256 → AreBytes (replicate n x)
replicate-AreBytes zero x h = tt
replicate-AreBytes (suc n) x h = (h, replicate-AreBytes n x h)

header-unmarshal_example :
    (h : Header) × IsHeader h
    × (unmarshal zero_header (replicate 37 1) ≡ done (none, h))
    × (marshal h (replicate 36 0) ≡ done (none, take 36 (replicate 37 1) ++ []))
header-unmarshal_example =
    header-unmarshal zero_header (replicate 37 1) (replicate 36 0) refl (omega arith)
      (replicate-AreBytes 37 1 (omega arith)) (omega arith)

-- One idle connection for one address.
abbrev pool : Client
pool = record { freeconn = (ping, 5 ∷ []) ∷ []; closed = [] }

pool-IsPool : IsPool pool
unfolding lookup
pool-IsPool a = elim (Bool-cases (bytes_eq ping a)) [
  | inl e ↦ rw e (omega arith)
  | inr e ↦ rw e (omega arith)
]

pool-lookup : lookup ping pool.freeconn ≡ [] ++ 5 ∷ []
unfolding lookup
pool-lookup = rw (bytes_eq_refl ping) refl

abbrev fails : ℕ → Option Error
fails cn = some eof

with_conn-IsPool_example :
    (e : Option Error) × (c' : Client) × (with_conn (ok ping) (ok 6) fails pool ≡ done (e, c'))
    × IsPool c'
with_conn-IsPool_example = with_conn-IsPool (ok ping) (ok 6) fails pool pool-IsPool

has_room : length (lookup ping pool.freeconn) < 2
has_room = rw pool-lookup (omega arith)

get_free_conn-put_free_conn_example :
    (c' : Client) × (get_free_conn ping (put_free_conn ping 6 pool) ≡ done (some 6, c'))
    × (lookup ping c'.freeconn ≡ lookup ping pool.freeconn)
get_free_conn-put_free_conn_example = get_free_conn-put_free_conn ping 6 pool has_room

get_free_conn-close_example :
    (c' : Client) × (xs : List ℕ) × (ys : List ℕ) × (get_free_conn ping (close pool)
      ≡ done (some 5, c'))
    × (c'.closed ≡ xs ++ 5 ∷ ys)
get_free_conn-close_example = get_free_conn-close ping [] 5 pool pool-lookup

-- A resolver that gives the server itself, and a random number that is always 0.
abbrev itself : Bytes → Returns Bytes
itself server = ok server

abbrev always_zero : ℕ → ℕ
always_zero n = 0

set_servers_run : set_servers itself itself (ping ∷ ping ∷ []) [] ≡ (none, ping ∷ ping ∷ [])
unfolding set_servers resolve_all resolve has_slash
set_servers_run = refl

pick_server-set_servers_example :
    Picks itself itself (ping ∷ ping ∷ []) (pick_server always_zero (ping ∷ ping ∷ []))
pick_server-set_servers_example =
    pick_server-set_servers itself itself always_zero (ping ∷ ping ∷ []) [] (ping ∷ ping ∷ [])
      (λ n h. h) set_servers_run
