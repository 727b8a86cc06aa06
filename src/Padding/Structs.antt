-- ===== src/Padding/Structs.antt =====
-- `AddPadding` on a class that is no union: the new members cover it, in order, from 0 to its size.
use mathlib.Core.List.{append_assoc}
use object_introspection.Prelude.{
  ℕ, suc, ◌+◌, ◌-◌, ◌/◌, ◌%◌, ◌^◌, ◌<◌, ◌≡◌, refl, List, [], ◌∷◌, ◌++◌, Option, none, some, Bool,
  true, false, Outcome, ok, ◌>>=◌, if◌then◌else◌, ◌==◌, ltb, add_u64, mul_u64, arith, length, ◌∙◌,
  ap, sym, subst,
}
use object_introspection.Types.{Ref, Member, Class, primitive, int8}
use object_introspection.Store.{TypeGraph, deref, primitive_ref}
use object_introspection.Store.Extension.{Extends, Extends-trans}
use object_introspection.Padding.{
  Padded, push, member_prefix, member_bits, add_padding_between, add_padding_from, pad_members,
  pad_struct,
}
use object_introspection.Padding.Gap.{
  bit_padding, byte_padding, grown_graph, add_padding_between_lem,
}
use object_introspection.Padding.Tiling.{
  Tiles, IsGap, Spaced, Tiles-append, Tiles-Extends, Spaced-Extends, member_bits-Extends,
  grown_graph-Extends, gap-Tiles,
}

-- The second list is the first with padding members put in.
pub data Interleaved : List Member → List Member → Type 0 where
  done : Interleaved [] []
  keep : {ms out : List Member} (m : Member) → Interleaved ms out → Interleaved (m ∷ ms) (m ∷ out)
  pad :
      {ms out : List Member} (m : Member)
      → m.name ≡ member_prefix
      → Interleaved ms out
      → Interleaved ms (m ∷ out)

Interleaved-append :
    {ms out ms' out' : List Member}
    → Interleaved ms out
    → Interleaved ms' out'
    → Interleaved (ms ++ ms') (out ++ out')
Interleaved-append done k = k
Interleaved-append (keep m h) k = keep m (Interleaved-append h k)
Interleaved-append (pad m e h) k = pad m e (Interleaved-append h k)

-- What padding the members `ms` up to `end` behind `out` comes to.
pub record Filled (depth : ℕ) (out : Padded) (ms : List Member) (end : ℕ) (result : Outcome Padded)
    : Type 0 where
  pub after : Padded
  pub returns : result ≡ ok after
  pub tiles : Tiles depth after.graph 0 after.members end
  pub extends : Extends out.graph after.graph
  pub added : List Member
  pub appended : after.members ≡ out.members ++ added
  pub interleaved : Interleaved ms added

-- Where the member before ends.
abbrev pub EndsAt : ℕ → TypeGraph → Option Member → ℕ → Type 0
EndsAt depth g none p = p ≡ 0
EndsAt depth g (some m) p = (w : ℕ) × (member_bits depth g m ≡ ok w) × (m.bit_offset + w ≡ p)

pub add_padding_from_start :
    (depth : ℕ) (prev : Option Member) (p end : ℕ) (out : Padded)
    → EndsAt depth out.graph prev p
    → p < 2 ^ 63
    → add_padding_from depth prev end out ≡ add_padding_between p end out
unfolding add_padding_from
add_padding_from_start depth none p end out e h = rw e
add_padding_from_start depth (some m) p end out (w, e, k) h =
    let s : add_u64 m.bit_offset w ≡ p = omega arith in rw (e, s)

unless-Interleaved :
    (m : Member) (b : Bool) → m.name ≡ member_prefix → Interleaved [] (if b then [] else m ∷ [])
unless-Interleaved m true e = done
unless-Interleaved m false e = pad m e done

when-Interleaved :
    (m : Member) (b : Bool) → m.name ≡ member_prefix → Interleaved [] (if b then m ∷ [] else [])
when-Interleaved m true e = pad m e done
when-Interleaved m false e = done

pads-Interleaved :
    (a : Ref) (start bits : ℕ)
    → Interleaved [] (bit_padding start bits ++ byte_padding a start bits)
pads-Interleaved a start bits =
    Interleaved-append (unless-Interleaved _ (bits % 8 == 0) refl)
      (when-Interleaved _ (ltb 0 (bits / 8)) refl)

module _ (d : ℕ) where
  abbrev depth : ℕ
  depth = suc (suc d)

  -- One call for a gap.
  gap-Filled :
      (prev : Option Member) (p end : ℕ) (out : Padded)
      → deref out.graph (primitive_ref int8) ≡ some (primitive int8)
      → EndsAt depth out.graph prev p
      → IsGap p end
      → Tiles depth out.graph 0 out.members p
      → Filled depth out [] end (add_padding_from depth prev end out)
  gap-Filled prev p end out byte ends gap tiles =
      let g' = grown_graph (end - p) out.graph in
      let ordered = gap.ordered in
      let small = gap.small in
      let grows = grown_graph-Extends (end - p) out.graph in
      record {
        after = record {
          members =
              out.members
              ++ (bit_padding p (end - p) ++ byte_padding (length out.graph.nodes) p (end - p));
          graph = g';
        };
        returns =
            add_padding_from_start depth prev p end out ends (omega arith)
            ∙ add_padding_between_lem p end out gap.ordered gap.small;
        tiles =
            Tiles-append depth g' 0 p end out.members _
              (Tiles-Extends depth out.graph g' 0 p out.members grows tiles)
              (gap-Tiles d out.graph byte p end gap);
        extends = grows;
        added = bit_padding p (end - p) ++ byte_padding (length out.graph.nodes) p (end - p);
        appended = refl;
        interleaved = pads-Interleaved (length out.graph.nodes) p (end - p);
      }

  -- The loop.
  members-Filled :
      (prev : Option Member) (p end : ℕ) (ms : List Member) (out : Padded)
      → deref out.graph (primitive_ref int8) ≡ some (primitive int8)
      → EndsAt depth out.graph prev p
      → Spaced depth out.graph p ms end
      → Tiles depth out.graph 0 out.members p
      → Filled depth out ms end (pad_members depth prev ms end out)
  unfolding pad_members
  members-Filled prev p end [] out byte ends spaced tiles =
      gap-Filled prev p end out byte ends spaced tiles
  members-Filled prev p end (m ∷ ms) out byte ends (gap, (w, e, spaced)) tiles =
      let step = gap-Filled prev p m.bit_offset out byte ends gap tiles in
      let g' = step.after.graph in
      let w_kept = member_bits-Extends depth out.graph g' m w step.extends e in
      let next =
        members-Filled (some m) (m.bit_offset + w) end ms (push m step.after)
          (step.extends (primitive_ref int8) (primitive int8) byte) (w, w_kept, refl)
          (Spaced-Extends depth out.graph g' (m.bit_offset + w) end ms step.extends spaced)
          (Tiles-append depth g' 0 m.bit_offset (m.bit_offset + w) step.after.members (m ∷ [])
            step.tiles (refl, (w, w_kept, refl))) in
      record {
        after = next.after;
        returns =
            ap
              (λ (o : Outcome Padded).
                o >>= λ out'. pad_members depth (some m) ms end (push m out'))
              step.returns
            ∙ next.returns;
        tiles = next.tiles;
        extends = Extends-trans out.graph g' next.after.graph step.extends next.extends;
        added = step.added ++ (m ∷ next.added);
        appended =
            next.appended
            ∙ append_assoc step.after.members (m ∷ []) next.added
            ∙ ap (λ (l : List Member). l ++ (m ∷ next.added)) step.appended
            ∙ append_assoc out.members step.added (m ∷ next.added);
        interleaved = Interleaved-append step.interleaved (keep m next.interleaved);
      }

-- For a class whose members are sorted by offset and do not overlap, and each of whose gaps ends at
-- a byte boundary or has less than 8 bits, the pass returns. The new members lie one behind the
-- other from bit 0 to the end of the class; they are the old ones, in order, with padding members
-- put in; and the graph keeps every node that it had.
pub pad_struct-Tiles :
    (d : ℕ) (c : Class) (g : TypeGraph)
    → deref g (primitive_ref int8) ≡ some (primitive int8)
    → Spaced (suc (suc d)) g 0 c.members (mul_u64 c.size 8)
    → (out : Padded) × (pad_struct (suc (suc d)) c g ≡ ok out)
      × Tiles (suc (suc d)) out.graph 0 out.members (mul_u64 c.size 8)
      × Interleaved c.members out.members
      × Extends g out.graph
unfolding pad_struct
pad_struct-Tiles d c g byte spaced =
    let filled =
      members-Filled d none 0 (mul_u64 c.size 8) c.members (record { members = []; graph = g }) byte
        refl spaced refl in
    (
      filled.after,
      filled.returns,
      filled.tiles,
      subst (Interleaved c.members) (sym filled.appended) filled.interleaved,
      filled.extends,
    )
