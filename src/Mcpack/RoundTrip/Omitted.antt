-- ===== src/Mcpack/RoundTrip/Omitted.antt =====
-- The member count of a struct whose field is left out.
use gomcpack.Prelude.{◌≡◌, refl, ◌∙◌, Bool, true, [], ◌∷◌}
use gomcpack.Go.{done, panic, runtime_error, ok}
use gomcpack.Go.Slice.{Bytes, index, slice_from}
use gomcpack.Mcpack.Number.{uint8, uint32}
use gomcpack.Mcpack.Value.{Value, struct, field, no_fields}
use gomcpack.Mcpack.Wire.{wire}
use gomcpack.Mcpack.Encode.{skips_field, marshal_value}
use gomcpack.Mcpack.Encode.Refine.{marshal_value-wire}
use gomcpack.Mcpack.Decode.{
  unmarshal_interface, value_into_interface, peek, read, offset, advance, key, type_and_klen,
  container_header, members_loop, object_interface,
}

-- The item of an object that says it has one member, and has none.
abbrev pub one_missing : Bytes
one_missing = 0x10 ∷ 0 ∷ 4 ∷ 0 ∷ 0 ∷ 0 ∷ 1 ∷ 0 ∷ 0 ∷ 0 ∷ []

-- A struct with one field, which `Marshal` leaves out because it is empty and has `omitempty`, or
-- because it cannot be reached, is still counted: `Unmarshal` into an `interface{}` reads one member
-- too many and stops in a bounds check.
pub marshal-omitted :
    (name : Bytes) (omit_empty : Bool) (v : Value) (spare : Bytes)
    → skips_field omit_empty v ≡ true
    → (marshal_value (struct (field name omit_empty v no_fields)) ≡ done (ok one_missing))
      × (unmarshal_interface one_missing spare ≡ panic runtime_error)
unfolding wire unmarshal_interface value_into_interface object_interface container_header
    members_loop key peek read offset advance index slice_from uint8 uint32 type_and_klen
marshal-omitted name omit_empty v spare skipped =
    (marshal_value-wire (struct (field name omit_empty v no_fields)) ∙ rw skipped refl, refl)
