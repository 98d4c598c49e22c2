-- ===== src/Npc/Message.antt =====
-- npc/header.go, request.go and response.go: messages on byte streams. A reader is the bytes that the
-- peer sends before it closes. A writer is what has been written; a broken one fails every write, as
-- a `bufio.Writer` does after its first error. Of `(n int, err error)` only the error is kept: no
-- caller reads the count.
pub mod Frames
use gomcpack.Prelude.{
  ℕ, ◌+◌, ◌-◌, ◌%◌, ◌^◌, Bool, true, false, Option, none, some, List, [], ◌∷◌, ◌++◌, length, take,
  drop, replicate, leb, ◌==◌, not, if◌then◌else◌,
}
use gomcpack.Go.{
  Go, done, panic, runtime_error, ◌>>=◌, Error, io_error, eof, unexpected_eof, bad_magic, Returns,
  ok, err,
}
use gomcpack.Go.Slice.{Bytes}
use gomcpack.Npc.Header.{Header, header_size, header_magicnum, unmarshal, marshal}

pub record Writer : Type 0 where
  pub out : Bytes
  pub broken : Bool

-- `w.Write(data)`
unfoldable pub write : Bytes → Writer → Option Error × Writer
write bs w = if w.broken then (some io_error, w) else (none, record w { out = w.out ++ bs })

-- `io.ReadFull(r, buf)` for a buffer of `n` bytes, and what is left of the stream.
unfoldable pub read_full : ℕ → Bytes → Returns Bytes × Bytes
read_full n s =
    if leb n (length s)
    then (ok (take n s), drop n s)
    else (err (if length s == 0 then eof else unexpected_eof), [])

-- The header of `new(Request)` and of `new(Response)`.
abbrev pub zero_header : Header
zero_header = record {
  id = 0;
  version = 0;
  log_id = 0;
  provider = replicate 16 0;
  magic_num = 0;
  reserved = 0;
  body_len = 0;
}

-- `h.Write(w)`
unfoldable pub write_header : Header → Writer → Go (Option Error × Writer)
write_header h w = marshal h (replicate header_size 0) >>= after
  where
    after : Option Error × Bytes → Go (Option Error × Writer)
    after (some e, buf) = done (some e, w)
    after (none, buf) = done (write buf w)

-- `h.Read(r)`
unfoldable pub read_header : Header → Bytes → Go (Returns Header × Bytes)
read_header h s = after (read_full header_size s)
  where
    parsed : Bytes → Option Error × Header → Go (Returns Header × Bytes)
    parsed s (some e, h) = done (err e, s)
    parsed s (none, h) = done (ok h, s)

    after : Returns Bytes × Bytes → Go (Returns Header × Bytes)
    after (err e, s) = done (err e, s)
    after (ok buf, s) = unmarshal h buf >>= parsed s

-- The body is what its reader gives; `none` is a nil reader.
pub record Request : Type 0 where
  pub header : Header
  pub body : Option Bytes

-- `req.Write(w)`; `io.Copy` calls a method of the nil reader.
unfoldable pub write_request : Request → Writer → Go (Option Error × Writer)
write_request r w = write_header r.header w >>= after r.body
  where
    after : Option Bytes → Option Error × Writer → Go (Option Error × Writer)
    after body (some e, w) = done (some e, w)
    after none (none, w) = panic runtime_error
    after (some body) (none, w) = done (write body w)

-- `ReadRequest(r)`: the header. The body is a reader of the `BodyLen` bytes that follow.
unfoldable pub read_request : Bytes → Go (Returns Header × Bytes)
read_request s = read_header zero_header s >>= after
  where
    after : Returns Header × Bytes → Go (Returns Header × Bytes)
    after (err e, s) = done (err e, s)
    after (ok h, s) =
        if not (h.magic_num == header_magicnum) then done (err bad_magic, s) else done (ok h, s)

-- `NewRequest(body)` with the random number `log_id`, for a nil body and for the buffers and readers
-- that know their length.
unfoldable pub new_request : ℕ → Option Bytes → Request
new_request log_id body = filled body
  where
    header : ℕ → Header
    header body_len = record zero_header {
      log_id = log_id;
      magic_num = header_magicnum;
      body_len = body_len;
    }

    filled : Option Bytes → Request
    filled none = record { header = header 0; body = none }
    filled (some b) = record {
      header = header (length b % 2 ^ 32);
      body = some (take (length b % 2 ^ 32) b);
    }

pub record Response : Type 0 where
  pub header : Header
  pub body : Bytes

-- `ReadResponse(r)`
unfoldable pub read_response : Bytes → Go (Returns Response × Bytes)
read_response s = read_header zero_header s >>= after
  where
    whole : Header → Returns Bytes × Bytes → Returns Response × Bytes
    whole h (err e, s) = (err e, s)
    whole h (ok body, s) = (ok (record { header = h; body = body }), s)

    after : Returns Header × Bytes → Go (Returns Response × Bytes)
    after (err e, s) = done (err e, s)
    after (ok h, s) =
        if not (h.magic_num == header_magicnum)
        then done (err bad_magic, s)
        else done (whole h (read_full h.body_len s))
