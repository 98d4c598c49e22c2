-- ===== src/Mcpack/Encode/State.antt =====
-- The `encodeState` and its methods. Every buffer of the program is nil or comes from
-- `make([]byte, n, n)`, so its length is its capacity. Offsets and capacities are Go's 64-bit `int`
-- and stay below the size of memory: they do not wrap.
use gomcpack.Prelude.{ℕ, ◌+◌, ◌*◌, ◌++◌, length, take, replicate, ltb, leb, if◌then◌else◌}
use gomcpack.Go
use gomcpack.Go.{Go, done, panic, raised, key_too_long}
use gomcpack.Go.Slice.{Bytes, byte, store, slice_from, copy}
use gomcpack.Go.Proc.{Proc, ◌>>◌, pure, throw}
use gomcpack.Mcpack.Const.{key_max_len}
use gomcpack.Mcpack.Number.{put_int32}

pub record EncodeState : Type 0 where
  pub buffer : Bytes
  pub off : ℕ

abbrev pub Enc : Type 0 → Type 0
Enc A = Proc EncodeState A

-- `max(l, r)` of encode.go.
unfoldable pub max : ℕ → ℕ → ℕ
max l r = if leb r l then l else r

-- `e.data[e.off] = t; e.off++`
unfoldable pub write_byte : ℕ → Enc (Unit {0})
write_byte t s =
    Go.◌>>=◌ (store s.buffer s.off t) λ b. done (tt, record { buffer = b; off = s.off + 1 })

unfoldable pub set_type : ℕ → Enc (Unit {0})
unfolding write_byte
set_type = write_byte

-- The length byte counts the 0x00 behind the key. Returns `len(k)`.
unfoldable pub set_key_len : Bytes → Enc ℕ
unfolding write_byte
set_key_len k = do
  if ltb key_max_len (length k) then throw (raised key_too_long) else pure tt
  if ltb 0 (length k) then write_byte (byte (length k + 1)) else write_byte 0
  pure (length k)

-- `e.off += copy(e.data[e.off:], k)`
unfoldable pub copy_bytes : Bytes → Enc (Unit {0})
copy_bytes k s = Go.◌>>=◌ (slice_from s.buffer s.off) λ dst.
    let (dst', n) = copy dst k in
    done (tt, record { buffer = take s.off s.buffer ++ dst'; off = s.off + n })

unfoldable pub set_key : Bytes → ℕ → Enc (Unit {0})
unfolding copy_bytes write_byte
set_key k l = if ltb 0 l then (do copy_bytes (take l k); write_byte 0) else pure tt

unfoldable pub resize_if_needed : ℕ → Enc (Unit {0})
unfolding max
resize_if_needed n s =
    let cap = length s.buffer in
    let newcap = max (cap * 2) (s.off + n) in
    if leb cap (s.off + n)
    then done (tt, record s { buffer = (copy (replicate newcap 0) s.buffer).0 })
    else done (tt, s)

-- `put(e.data[e.off:], v); e.off += width`, for one of the `Put` functions of number.go.
unfoldable pub write_number : (Bytes → ℕ → Go Bytes) → ℕ → ℕ → Enc (Unit {0})
write_number put width v s = Go.◌>>=◌ (slice_from s.buffer s.off) λ dst.
    Go.◌>>=◌ (put dst v)
      λ dst'. done (tt, record { buffer = take s.off s.buffer ++ dst'; off = s.off + width })

-- `pos := e.off`
unfoldable pub offset : Enc ℕ
offset s = done (s.off, s)

-- `e.off += n`
unfoldable pub advance : ℕ → Enc (Unit {0})
advance n s = done (tt, record s { off = s.off + n })

-- `PutInt32(e.data[pos:], v)`
unfoldable pub patch_int32 : ℕ → ℕ → Enc (Unit {0})
patch_int32 pos v s = Go.◌>>=◌ (slice_from s.buffer pos) λ dst.
    Go.◌>>=◌ (put_int32 dst v) λ dst'. done (tt, record s { buffer = take pos s.buffer ++ dst' })
