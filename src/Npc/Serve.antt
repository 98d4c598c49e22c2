-- ===== src/Npc/Serve.antt =====
-- npc/server.go: the loop of one connection, `response`, and the handler as a parameter. Deadlines,
-- logging, close notification and the pools of buffers leave no trace in the bytes read and written.
pub mod Loop
pub mod Total
use gomcpack.Prelude.{
  ℕ, zero, suc, ◌+◌, ◌-◌, ◌%◌, ◌^◌, Bool, true, false, Option, none, some, List, [], ◌∷◌, ◌++◌,
  length, take, drop, min, ◌==◌, if◌then◌else◌,
}
use gomcpack.Go.{Go, done, panic, out_of_fuel, ◌>>=◌, Error, wrote_response, Returns, ok, err}
use gomcpack.Go.Slice.{Bytes}
use gomcpack.Npc.Header.{Header}
use gomcpack.Npc.Message.{Writer, write, write_header, read_request}

-- `response`, without the connection and the request that it points to.
pub record ResponseState : Type 0 where
  pub wrote_reply : Bool
  pub handler_header : Header

-- `w.Write(data)`: the error, the response and the writer of the connection. An error of the
-- header's write is not returned.
unfoldable pub respond :
    Bytes → ResponseState × Writer → Go (Option Error × (ResponseState × Writer))
respond bs (r, w) =
    if r.wrote_reply
    then done (some wrote_response, (r, w))
    else (if length bs == 0
        then done (none, (record r { wrote_reply = true }, w))
        else (let h = record r.handler_header { body_len = length bs % 2 ^ 32 } in
            write_header h w >>= after (record { wrote_reply = true; handler_header = h })))
  where
    after : ResponseState → Option Error × Writer → Go (Option Error × (ResponseState × Writer))
    after r (some e, w) = done (none, (r, w))
    after r (none, w) = let (e, w') = write bs w in done (e, (r, w'))

-- What a handler does with a request: how much of the body it reads, the header that it leaves in
-- `*w.Header()`, and the data of its calls of `w.Write` in their order. The calls come after the
-- changes of the header.
pub record Reply : Type 0 where
  pub taken : ℕ
  pub header : Header
  pub writes : List Bytes

-- It sees the request's header, the header of the response, and the body.
abbrev pub Handler : Type 0
Handler = Header → Header → Bytes → Reply

-- The calls of `w.Write`; a handler may ignore their errors.
unfoldable pub respond_all : List Bytes → ResponseState × Writer → Go (ResponseState × Writer)
respond_all [] s = done s
respond_all (bs ∷ rest) s = respond bs s >>= λ r. respond_all rest r.1

-- A read of at most `n` bytes through `io.LimitReader`: the limit and the stream afterwards.
unfoldable pub limited_read : ℕ → ℕ × Bytes → ℕ × Bytes
limited_read n (limit, s) = let m = min n (min limit (length s)) in (limit - m, drop m s)

-- `io.Copy(ioutil.Discard, w.req.Body)`: reads until the limit or the stream ends.
unfoldable pub discard_body : ℕ × Bytes → Bytes
discard_body (limit, s) = drop (min limit (length s)) s

-- One request: the handler on it, and `finishRequest`. The stream and the writer afterwards.
unfoldable pub handle : Handler → Header → Bytes → Writer → Go (Bytes × Writer)
handle handler h s w =
    let own = record h { body_len = 0 } in
    let reply = handler h own (take h.body_len s) in
    let start : ResponseState = record { wrote_reply = false; handler_header = reply.header } in
    respond_all reply.writes (start, w) >>= λ r.
    done (discard_body (limited_read reply.taken (h.body_len, s)), r.1)

-- A turn of the loop after `c.readRequest()`, with the following turns as `next`.
unfoldable pub turn :
    Handler
    → (Bytes → Writer → Go (Error × Writer))
    → Writer
    → Returns Header × Bytes
    → Go (Error × Writer)
turn handler next w (err e, s) = done (e, w)
turn handler next w (ok h, s) = handle handler h s w >>= λ r. next r.0 r.1

-- `c.serve()`: the error that ends the loop, and the writer. The connection is closed then.
unfoldable pub serve : ℕ → Handler → Bytes → Writer → Go (Error × Writer)
serve zero handler s w = out_of_fuel
serve (suc f) handler s w = read_request s >>= turn handler (serve f handler) w
