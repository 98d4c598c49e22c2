-- ===== src/Go/Slice/Defs.antt =====
-- Reads, writes and slice expressions of Go on byte slices, with the panics of Go's bounds checks.
use gomcpack.Prelude.{ℕ, ◌+◌, ◌-◌, ◌%◌, none, some, List, ◌++◌, min}
use gomcpack.Prelude.{length, get_elem?, set, take, drop, ltb, leb, if◌then◌else◌, ◌&&◌}
use gomcpack.Go.{Go, done, panic, runtime_error}

abbrev pub Bytes : Type 0
Bytes = List ℕ

-- The conversion `byte(v)` of an unsigned integer.
abbrev pub byte : ℕ → ℕ
byte v = v % 256

-- `b[i]`
unfoldable pub index : Bytes → ℕ → Go ℕ
index b i = elim (get_elem? b i) [ none ↦ panic runtime_error | some x ↦ done x ]

-- `b[i] = v`
unfoldable pub store : Bytes → ℕ → ℕ → Go Bytes
store b i v = if ltb i (length b) then done (set b i v) else panic runtime_error

-- `b[lo:]`
unfoldable pub slice_from : Bytes → ℕ → Go Bytes
slice_from b lo = if leb lo (length b) then done (drop lo b) else panic runtime_error

-- `b[lo:hi]` of a slice with the bytes `spare` behind its end: Go checks `lo <= hi <= cap(b)`.
unfoldable pub slice_to_cap : Bytes → Bytes → ℕ → ℕ → Go Bytes
slice_to_cap b spare lo hi =
    if leb lo hi && leb hi (length b + length spare)
    then done (take (hi - lo) (drop lo (b ++ spare)))
    else panic runtime_error

-- `copy(dst, src)`: the bytes of `dst` afterwards, and the number copied.
unfoldable pub copy : Bytes → Bytes → Bytes × ℕ
copy dst src = (take (length dst) src ++ drop (length src) dst, min (length dst) (length src))
