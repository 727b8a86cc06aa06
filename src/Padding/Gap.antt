-- ===== src/Padding/Gap.antt =====
-- What the padding of one gap looks like.
use object_introspection.Prelude.{
  ℕ, ◌+◌, ◌-◌, ◌*◌, ◌/◌, ◌%◌, ◌^◌, ◌≤◌, ◌<◌, ◌≡◌, inl, inr, List, [], ◌∷◌, ◌++◌, ok, if◌then◌else◌,
  ◌==◌, ltb, add_u64, sub_u64_le, mul_u64, arith, length, Bool-cases, ◌∙◌, ap,
}
use mathlib.Core.List.{append-nil, append_assoc}
use object_introspection.Types.{Ref, Member, int8}
use object_introspection.Store.{TypeGraph, primitive_ref, make_type}
use object_introspection.Padding.{
  Padded, new_member, member_prefix, byte_array, add_padding_between, pad_bits, pad_bytes,
}

-- The member for the bits up to a byte boundary, and that for whole bytes.
abbrev pub bit_padding : ℕ → ℕ → List Member
bit_padding start bits =
    if bits % 8 == 0
    then []
    else new_member (primitive_ref int8) member_prefix start (bits % 8) ∷ []

abbrev pub byte_padding : Ref → ℕ → ℕ → List Member
byte_padding a start bits =
    if ltb 0 (bits / 8)
    then record (new_member a "" ((start + 7) / 8 * 8) 0) { name = member_prefix } ∷ []
    else []

abbrev pub grown_graph : ℕ → TypeGraph → TypeGraph
grown_graph bits g = if ltb 0 (bits / 8) then (make_type (byte_array (bits / 8)) g).1 else g

pad_bits_lem :
    (start bits : ℕ) (out : Padded)
    → pad_bits (primitive_ref int8) start bits out
      ≡ record out { members = out.members ++ bit_padding start bits }
unfolding pad_bits
pad_bits_lem start bits out = elim (Bool-cases (bits % 8 == 0)) [
  | inl whole ↦ rw (whole, append-nil out.members)
  | inr part ↦ rw part
]

pad_bytes_lem :
    (start bits : ℕ) (out : Padded)
    → start < 2 ^ 63
    → pad_bytes start bits out ≡ record {
      members = out.members ++ byte_padding (length out.graph.nodes) start bits;
      graph = grown_graph bits out.graph;
    }
unfolding pad_bytes make_type
pad_bytes_lem start bits out h =
    let e : add_u64 start 7 ≡ start + 7 = omega arith in
    let e' : mul_u64 ((start + 7) / 8) 8 ≡ (start + 7) / 8 * 8 = omega arith in
    elim (Bool-cases (ltb 0 (bits / 8))) [
      | inl some_bytes ↦ rw (some_bytes, e, e')
      | inr no_bytes ↦ rw (no_bytes, append-nil out.members)
    ]

-- In a gap that does not wrap round: the two members, behind what was there.
pub add_padding_between_lem :
    (start end : ℕ) (out : Padded)
    → start ≤ end
    → end < 2 ^ 63
    → add_padding_between start end out
      ≡ ok (record {
        members =
            out.members
            ++ (bit_padding start (end - start)
                ++ byte_padding (length out.graph.nodes) start (end - start));
        graph = grown_graph (end - start) out.graph;
      })
unfolding add_padding_between
add_padding_between_lem start end out h k =
    let e = sub_u64_le end start h (omega arith) in
    elim (Bool-cases (end - start == 0)) [
      | inl empty ↦ let z : end - start ≡ 0 = ground arith in rw (e, z, append-nil out.members)
      | inr filled ↦
          rw (e, filled)
            (ap ok (
              ap (pad_bytes start (end - start)) (pad_bits_lem start (end - start) out)
              ∙ pad_bytes_lem start (end - start) _ (omega arith)
              ∙ ap
                  (λ ms.
                    let r : Padded = record {
                      members = ms;
                      graph = grown_graph (end - start) out.graph;
                    } in
                    r)
                  (append_assoc out.members _ _)))
    ]
