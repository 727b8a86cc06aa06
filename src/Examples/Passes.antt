-- ===== src/Examples/Passes.antt =====
-- The passes on sample classes.
use object_introspection.Prelude.{
  ◌≡◌, refl, List, [], ◌∷◌, inl, inr, ok, arith, mul_u64, false, ◌++◌,
}
use object_introspection.Types.{Member, Class, class_node}
use object_introspection.Store.{TypeGraph, empty, put, make_type}
use object_introspection.Store.Extension.{Extends}
use object_introspection.Layout.{size_of, align_of, strip_typedefs}
use object_introspection.Padding.{
  Padded, pad_struct, add_padding_between, member_bits, new_member, member_prefix, byte_array,
}
use object_introspection.Padding.Tiling.{Tiles, Spaced}
use object_introspection.Padding.Structs.{Interleaved, pad_struct-Tiles}
use object_introspection.Padding.Again.{
  Overlaps, pad_struct_idempotent, add_padding_between-Overlaps,
}
use object_introspection.Visitor.{Walk}
use object_introspection.Alignment.{align_class}
use object_introspection.Alignment.Classes.{Aligned, align_class-Aligned}
use object_introspection.Alignment.Unpacked.{IsRegular, align_class-IsRegular}
use object_introspection.Flattener.{merge, flatten_class, flatten_parents, flatten_parent}
use object_introspection.Flattener.Merge.{Merges}
use object_introspection.Flattener.Order.{SortedFrom, Laid, merge-SortedFrom}
use object_introspection.Flattener.Classes.{flatten_class_once}
use object_introspection.Examples.Samples.{pair_class, member, derived, family}

pair-Spaced : Spaced 2 empty 0 pair_class.members (mul_u64 pair_class.size 8)
unfolding member_bits size_of
pair-Spaced = (
  record { ordered = omega arith; small = omega arith; fillable = inl refl },
  (
    8,
    refl,
    (
      record { ordered = omega arith; small = omega arith; fillable = inl refl },
      (32, refl, record { ordered = omega arith; small = omega arith; fillable = inl refl }),
    ),
  ),
)

-- Three bytes of padding between the members.
abbrev pair_padded : Padded
pair_padded = record {
  members =
      member 0 "a" 0
      ∷ record (new_member 15 "" 8 0) { name = member_prefix }
      ∷ member 2 "b" 32
      ∷ [];
  graph = (make_type (byte_array 3) empty).1;
}

pair_pads : pad_struct 2 pair_class empty ≡ ok pair_padded
unfolding pad_struct size_of make_type
pair_pads = refl

pad_struct-Tiles_example :
    (out : Padded) × (pad_struct 2 pair_class empty ≡ ok out)
    × Tiles 2 out.graph 0 out.members 64
    × Interleaved pair_class.members out.members
    × Extends empty out.graph
pad_struct-Tiles_example = pad_struct-Tiles 0 pair_class empty refl pair-Spaced

pad_struct_idempotent_example :
    pad_struct 2 (record pair_class { members = pair_padded.members }) pair_padded.graph
    ≡ ok pair_padded
pad_struct_idempotent_example =
    pad_struct_idempotent 0 pair_class empty pair_padded refl pair-Spaced pair_pads

-- struct { char a; int : 12; int b : 4; }: the gap from bit 8 to bit 20.
add_padding_between-Overlaps_example :
    (out' : Padded) × (bits bytes : Member) × (add_padding_between 8 20
        (record { members = []; graph = empty })
      ≡ ok out')
    × (out'.members ≡ [] ++ (bits ∷ bytes ∷ []))
    × Overlaps 8 20 out'.graph bits bytes
add_padding_between-Overlaps_example =
    add_padding_between-Overlaps 8 20 (record { members = []; graph = empty }) refl (omega arith)
      (omega arith) (omega arith)

-- The class at address 15, whose members' types are visited.
abbrev pair_walk : Walk
pair_walk = record {
  visited = [];
  graph = record empty { nodes = empty.nodes ++ class_node pair_class ∷ [] };
}

abbrev pair_aligned : Class
pair_aligned = record pair_class {
  members = record (member 0 "a" 0) { align = 1 } ∷ record (member 2 "b" 32) { align = 4 } ∷ [];
  align = 4;
}

pair_aligns :
    align_class 2 (λ r s. ok s) 15 pair_walk
    ≡ ok (record pair_walk { graph = put 15 (class_node pair_aligned) pair_walk.graph })
unfolding align_class align_of
pair_aligns = refl

align_class-IsRegular_example :
    (c' : Class) × (g : TypeGraph) × (put 15 (class_node pair_aligned) pair_walk.graph
      ≡ put 15 (class_node c') g)
    × (c'.packed ≡ false → IsRegular pair_class c')
align_class-IsRegular_example =
    align_class-IsRegular 2 (λ r s. ok s) 15 pair_walk
      (record pair_walk { graph = put 15 (class_node pair_aligned) pair_walk.graph }) pair_class
      refl refl pair_aligns

align_class-Aligned_example :
    (c' : Class) × (t : Walk) × (record pair_walk {
      graph = put 15 (class_node pair_aligned) pair_walk.graph;
    }
      ≡ record t { graph = put 15 (class_node c') t.graph })
    × Aligned 2 (λ r s. ok s) pair_class pair_walk c' t
align_class-Aligned_example =
    align_class-Aligned 2 (λ r s. ok s) 15 pair_walk
      (record pair_walk { graph = put 15 (class_node pair_aligned) pair_walk.graph }) pair_class
      refl pair_aligns

family-Laid : Laid 3 family (λ p. 64) 0 derived.parents
unfolding flatten_parent strip_typedefs
family-Laid = (
  omega arith,
  omega arith,
  (member 2 "x" 0 ∷ [], refl, (omega arith, tt), (omega arith, tt)),
  tt,
)

merge-SortedFrom_example :
    (out : List Member) × (merge 3 family derived.members derived.parents ≡ ok out)
    × SortedFrom 0 out
merge-SortedFrom_example =
    merge-SortedFrom 3 family (λ p. 64) 0 derived.members derived.parents (omega arith, tt)
      family-Laid ((inr (omega arith), tt), tt)

abbrev flattened : Class
flattened = record derived { parents = []; members = member 2 "x" 0 ∷ member 3 "y" 64 ∷ [] }

family_flattens : flatten_class 3 family derived ≡ ok flattened
unfolding flatten_class strip_typedefs
family_flattens = refl

family_parents : flatten_parents 3 family derived.parents ≡ ok (member 2 "x" 0 ∷ [])
unfolding flatten_parents strip_typedefs
family_parents = refl

flatten_class_once_example :
    (flattened.parents ≡ [])
    × Merges derived.members (member 2 "x" 0 ∷ []) flattened.members
    × ((g' : TypeGraph) → flatten_class 3 g' flattened ≡ ok flattened)
flatten_class_once_example =
    flatten_class_once 3 family derived flattened (member 2 "x" 0 ∷ []) family_parents
      family_flattens
