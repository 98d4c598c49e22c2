-- ===== src/Mcpack/Tests/Decoding.antt =====
-- Runs of `Unmarshal` into an `interface{}` on the inputs of mcpack/decode_test.go.
use gomcpack.Prelude.{◌≡◌, refl, some, [], ◌∷◌}
use gomcpack.Go.{done, panic, runtime_error, ok, err, unexpected_end, reflect_error}
use gomcpack.Go.Slice.{index, slice_from, slice_to_cap}
use gomcpack.Mcpack.Number.{uint8, uint32, int32}
use gomcpack.Mcpack.Dyn
use gomcpack.Mcpack.Dyn.{no_members, member, map_set}
use gomcpack.Mcpack.Decode.{
  peek, read, offset, advance, slice_data, key_start, check_key, key, string_interface,
  null_interface, int32_interface, unmarshal_interface,
}

-- The object with the member `alpha`.
unmarshal_alpha :
    unmarshal_interface
      (0x10 ∷ 0 ∷ 20 ∷ 0 ∷ 0 ∷ 0 ∷ 1 ∷ 0 ∷ 0 ∷ 0 ∷ 0x50 ∷ 6 ∷ 4 ∷ 0 ∷ 0 ∷ 0 ∷ b'a' ∷ b'l' ∷ b'p'
        ∷ b'h' ∷ b'a' ∷ 0 ∷ b'a' ∷ b'-' ∷ b'z' ∷ 0 ∷ [])
      []
    ≡ done (
        ok (
          some (
            Dyn.object (
              member
                (b'a' ∷ b'l' ∷ b'p' ∷ b'h' ∷ b'a' ∷ [])
                (Dyn.string (b'a' ∷ b'-' ∷ b'z' ∷ []))
                no_members))))
unfolding unmarshal_interface peek read offset advance slice_data key_start check_key key index
    slice_from slice_to_cap uint8 uint32 map_set string_interface
unmarshal_alpha = refl

-- A number is refused by a variable of type `interface{}`.
unmarshal_int32 : unmarshal_interface (0x14 ∷ 0 ∷ 4 ∷ 0 ∷ 0 ∷ 0 ∷ []) [] ≡ done (err reflect_error)
unfolding unmarshal_interface peek read offset advance index slice_from uint8 uint32 int32_interface
    int32
unmarshal_int32 = refl

-- A byte behind the item, and an item that is cut off.
unmarshal_rest : unmarshal_interface (0x61 ∷ 0 ∷ 0 ∷ 0 ∷ []) [] ≡ done (err unexpected_end)
unfolding unmarshal_interface peek read offset advance index slice_from uint8 null_interface
unmarshal_rest = refl

unmarshal_cut : unmarshal_interface (0x10 ∷ 0 ∷ 0 ∷ []) [] ≡ panic runtime_error
unfolding unmarshal_interface peek read offset advance index slice_from uint8 uint32
unmarshal_cut = refl
