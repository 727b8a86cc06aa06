-- ===== src/Padding/Again.antt =====
-- A class without gaps gets no padding, so the pass changes nothing when it runs again; and where
-- two padding members of one gap fall on the same bits.
use mathlib.Core.List.{append_assoc, append-nil}
use mathlib.Core.Path.{ap₂}
use object_introspection.Prelude.{
  ℕ, suc, ◌+◌, ◌-◌, ◌*◌, ◌/◌, ◌%◌, ◌^◌, ◌≤◌, ◌<◌, ◌≡◌, ◌≢◌, refl, List, [], ◌∷◌, ◌++◌, Option, none,
  some, Bool, true, false, Outcome, ok, ◌>>=◌, if◌then◌else◌, ◌==◌, ltb, mul_u64, arith, length,
  ◌∙◌, ap, sym, subst,
}
use object_introspection.Types.{NodeId, Member, Class, primitive, int8}
use object_introspection.Store.{TypeGraph, make_type, deref, primitive_ref}
use object_introspection.Store.Ids.{deref-make_type_new}
use object_introspection.Padding.{
  byte_array, Padded, push, add_padding_between, add_padding_from, pad_members, pad_struct,
  new_member, member_prefix,
}
use object_introspection.Padding.Gap.{add_padding_between_lem}
use object_introspection.Padding.Tiling.{Tiles, Spaced}
use object_introspection.Padding.Structs.{EndsAt, add_padding_from_start, pad_struct-Tiles}

-- No bits, no padding.
no_gap : (p : ℕ) (out : Padded) → p < 2 ^ 63 → add_padding_between p p out ≡ ok out
unfolding add_padding_between
no_gap p out h = let z : (p + 2 ^ 64 - p) % 2 ^ 64 ≡ 0 = omega arith in rw z

Tiles-le :
    (depth : ℕ) (g : TypeGraph) (start end : ℕ) (ms : List Member)
    → Tiles depth g start ms end
    → start ≤ end
Tiles-le depth g start end [] h = omega arith
Tiles-le depth g start end (m ∷ ms) (o, (w, e, h)) =
    omega (arith, Tiles-le depth g (start + w) end ms h)

tiled_members_kept :
    (depth : ℕ) (prev : Option Member) (p end : ℕ) (ms : List Member) (out : Padded)
    → end < 2 ^ 63
    → EndsAt depth out.graph prev p
    → Tiles depth out.graph p ms end
    → pad_members depth prev ms end out ≡ ok (record out { members = out.members ++ ms })
unfolding pad_members
tiled_members_kept depth prev p end [] out h ends tiles =
    add_padding_from_start depth prev p end out ends (omega arith)
    ∙ ap (λ e. add_padding_between p e out) (sym tiles)
    ∙ no_gap p out (omega arith)
    ∙ rw (append-nil out.members)
tiled_members_kept depth prev p end (m ∷ ms) out h ends (o, (w, e, tiles)) =
    let low = Tiles-le depth out.graph (p + w) end ms tiles in
    let here : add_padding_from depth prev m.bit_offset out ≡ ok out =
      add_padding_from_start depth prev p m.bit_offset out ends (omega arith)
      ∙ ap (λ x. add_padding_between p x out) o
      ∙ no_gap p out (omega arith) in
    ap (λ (s : Outcome Padded). s >>= λ out'. pad_members depth (some m) ms end (push m out')) here
    ∙ tiled_members_kept depth (some m) (p + w) end ms (push m out) h (w, e, omega arith) tiles
    ∙ ap (λ l. let q : Outcome Padded = ok (record { members = l; graph = out.graph }) in q)
        (append_assoc out.members (m ∷ []) ms)

-- A class whose members already cover it without a gap keeps them, and no node is made.
pub pad_struct_tiled :
    (depth : ℕ) (c : Class) (g : TypeGraph)
    → mul_u64 c.size 8 < 2 ^ 63
    → Tiles depth g 0 c.members (mul_u64 c.size 8)
    → pad_struct depth c g ≡ ok (record { members = c.members; graph = g })
unfolding pad_struct
pad_struct_tiled depth c g h tiles =
    tiled_members_kept depth none 0 (mul_u64 c.size 8) c.members
      (record { members = []; graph = g }) h refl tiles

Spaced-end :
    (depth : ℕ) (g : TypeGraph) (start end : ℕ) (ms : List Member)
    → Spaced depth g start ms end
    → end < 2 ^ 63
Spaced-end depth g start end [] h = h.small
Spaced-end depth g start end (m ∷ ms) (gap, (w, e, h)) =
    Spaced-end depth g (m.bit_offset + w) end ms h

-- Padding a class twice is padding it once: on the same conditions as for one run, the second run
-- returns the members and the graph that it was given.
pub pad_struct_idempotent :
    (d : ℕ) (c : Class) (g : TypeGraph) (out : Padded)
    → deref g (primitive_ref int8) ≡ some (primitive int8)
    → Spaced (suc (suc d)) g 0 c.members (mul_u64 c.size 8)
    → pad_struct (suc (suc d)) c g ≡ ok out
    → pad_struct (suc (suc d)) (record c { members = out.members }) out.graph ≡ ok out
pad_struct_idempotent d c g out byte spaced h =
    let (out', e, tiles, _, _) = pad_struct-Tiles d c g byte spaced in
    let same : out' ≡ out = cc in
    subst
      (λ (o : Padded). pad_struct (suc (suc d)) (record c { members = o.members }) o.graph ≡ ok o)
      same
      (pad_struct_tiled (suc (suc d)) (record c { members = out'.members }) out'.graph
        (Spaced-end (suc (suc d)) g 0 (mul_u64 c.size 8) c.members spaced) tiles)

-- What is added to a gap from `start` to `end`: a bitfield for the bits above whole bytes, and an
-- array of the whole bytes of the gap, as two members that begin where the gap begins.
pub record Overlaps (start end : ℕ) (g : TypeGraph) (bits bytes : Member) : Type 0 where
  pub bits_at : bits.bit_offset ≡ start
  pub bits_long : bits.bitsize ≡ (end - start) % 8
  pub some_bits : 0 < bits.bitsize
  pub bytes_at : bytes.bit_offset ≡ start
  pub id : NodeId
  pub bytes_long : deref g bytes.type ≡ some (byte_array ((end - start) / 8) id)
  pub within : bits.bit_offset + bits.bitsize ≤ bytes.bit_offset + 8 * ((end - start) / 8)
  pub uncovered : bytes.bit_offset + 8 * ((end - start) / 8) + bits.bitsize ≡ end

-- In a gap of 8 bits or more that starts at a byte boundary and does not end at one, before bit
-- 2 ^ 63, two members are added, a bitfield of (end - start) % 8 bits, which are more than 0, and an
-- array of (end - start) / 8 bytes, both at the start of the gap: all bits of the bitfield lie in the
-- array, and behind the array as many bits as the bitfield has are left uncovered.
pub add_padding_between-Overlaps :
    (start end : ℕ) (out : Padded)
    → start % 8 ≡ 0
    → end % 8 ≢ 0
    → start + 8 ≤ end
    → end < 2 ^ 63
    → (out' : Padded) × (bits bytes : Member) × (add_padding_between start end out ≡ ok out')
      × (out'.members ≡ out.members ++ (bits ∷ bytes ∷ []))
      × Overlaps start end out'.graph bits bytes
unfolding make_type
add_padding_between-Overlaps start end out aligned odd long small =
    let b = end - start in
    let bits = new_member (primitive_ref int8) member_prefix start (b % 8) in
    let bytes = record (new_member (length out.graph.nodes) "" ((start + 7) / 8 * 8) 0) {
      name = member_prefix;
    } in
    let part : (b % 8 == 0) ≡ false = ground arith in
    let more : ltb 0 (b / 8) ≡ true = ground arith in
    (
      _,
      bits,
      bytes,
      add_padding_between_lem start end out (omega arith) (omega arith),
      ap₂
          (λ (x y : Bool).
            out.members ++ ((if x then [] else bits ∷ []) ++ (if y then bytes ∷ [] else [])))
          part more,
      record {
        bits_at = refl;
        bits_long = refl;
        some_bits = ground arith;
        bytes_at = omega arith;
        id = out.graph.next_id;
        bytes_long = rw more (deref-make_type_new (byte_array (b / 8)) out.graph);
        within = omega arith;
        uncovered = omega arith;
      },
    )
