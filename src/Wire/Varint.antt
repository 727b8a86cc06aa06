-- ===== src/Wire/Varint.antt =====
-- Variable-length integers: `VarInt::write` of include/oi/types/st.h and `parseVarint` of
-- oi/exporters/ParsedData.cpp.
pub mod RoundTrip
use object_introspection.Prelude.{
  ℕ, zero, suc, true, false, ◌+◌, ◌*◌, ◌/◌, ◌%◌, ◌^◌, List, [], ◌∷◌, Outcome, ok, err, dangling,
  aborted, if◌then◌else◌, leb,
}

-- The loop of `write`, 7 bits a byte: `0x80 | (val & 0x7f)` is 128 + val % 128.
unfoldable pub write_from : ℕ → ℕ → List ℕ
write_from zero val = []
write_from (suc fuel) val = elim (leb 128 val) [
  | true ↦ (128 + val % 128) ∷ write_from fuel (val / 128)
  | false ↦ val ∷ []
]

-- Each round divides the value by 128, so it falls, and is fuel enough for any value.
unfoldable pub write : ℕ → List ℕ
unfolding write_from
write val = write_from (suc val) val

-- `v |= uint64_t(byte & 0x7f) << shift`. All bits of `v` are below `shift`, so the sum is the `|`.
abbrev pub or_shifted : ℕ → ℕ → ℕ → ℕ
or_shifted v byte shift = v + byte % 128 * 2 ^ shift % 2 ^ 64

-- The loop of `parseVarint`, with the bytes behind the iterator. A read past the end and a shift of
-- 64 or more are undefined behaviour: `dangling` and `aborted`.
unfoldable pub parse_from : ℕ → ℕ → List ℕ → Outcome (ℕ × List ℕ)
parse_from v shift [] = err dangling
parse_from v shift (byte ∷ bytes) =
    let more = parse_from (or_shifted v byte shift) (shift + 7) bytes in
    if leb 64 shift
    then err aborted
    else if leb 128 byte
    then more
    else ok (or_shifted v byte shift, bytes)

unfoldable pub parse_varint : List ℕ → Outcome (ℕ × List ℕ)
unfolding parse_from
parse_varint bytes = parse_from 0 0 bytes
