-- ===== src/Examples/Sorting.antt =====
-- The sorter on a graph with a cycle through a pointer.
use object_introspection.Prelude.{
  ℕ, zero, suc, ◌≡◌, ◌<◌, refl, List, [], ◌∷◌, All, ok, arith, some, subst, Option, none,
}
use object_introspection.Types.{Ref, Node, class_node, primitive, typedef, pointer, int32}
use object_introspection.Store.{TypeGraph, deref}
use object_introspection.TopoSorter.{calls_before, sort_types, children_of}
use object_introspection.TopoSorter.Order.{Exists, Has, Declared, Sorted, unvisited}
use object_introspection.TopoSorter.Sorts.{IsLayered}
use object_introspection.TopoSorter.Needs.{put_off, needs, mentions}
use object_introspection.TopoSorter.Complete.{mentions_at, sort_types-Sorted, turns_enough}
use object_introspection.Examples.Samples.{member, plain_class}

-- class Base { int32_t x; }; typedef Base Alias;
-- class Derived : Alias { Derived *next; }; at the addresses 1, 2 and 3.
abbrev ring : TypeGraph
ring = record {
  nodes =
      primitive int32
      ∷ class_node (plain_class "Base" (member 0 "x" 0 ∷ []) [] 4 0)
      ∷ typedef (record { name = "Alias"; input_name = "Alias"; underlying_type = 1; id = 1 })
      ∷ class_node (
          plain_class "Derived" (member 4 "next" 64 ∷ []) (record { type = 2; bit_offset = 0 } ∷ [])
            16 2)
      ∷ pointer (record { pointee_type = 3; input_name = ""; id = 3; name = "Derived*" })
      ∷ [];
  root_types = 3 ∷ [];
  final_types = [];
  next_id = 4;
}

abbrev ring_rank : Ref → ℕ
ring_rank zero = 0
ring_rank (suc zero) = 1
ring_rank (suc (suc zero)) = 2
ring_rank (suc (suc (suc zero))) = 3
ring_rank (suc (suc (suc (suc r)))) = 0

ring_rank_bounded : (r : Ref) → ring_rank r < 4
ring_rank_bounded zero = omega arith
ring_rank_bounded (suc zero) = omega arith
ring_rank_bounded (suc (suc zero)) = omega arith
ring_rank_bounded (suc (suc (suc zero))) = omega arith
ring_rank_bounded (suc (suc (suc (suc r)))) = omega arith

at {ℓ} : {m n : Node} (P : Node → Type ℓ) → P m → Path (Option Node) (some m) (some n) → P n
at {m = m} {n = n} P p e = let q : m ≡ n = cc in subst P q p

abbrev node_at : Ref → Node
node_at r = elim (deref ring r) [ some n ↦ n | none ↦ primitive int32 ]

-- A statement about each node of the graph.
each {ℓ} :
    (P : Ref → Node → Type ℓ)
    → P 0 (node_at 0)
    → P 1 (node_at 1)
    → P 2 (node_at 2)
    → P 3 (node_at 3)
    → P 4 (node_at 4)
    → (r : Ref) (n : Node) → deref ring r ≡ some n
    → P r n
each P a b c d f zero n e = at (P 0) a e
each P a b c d f (suc zero) n e = at (P 1) b e
each P a b c d f (suc (suc zero)) n e = at (P 2) c e
each P a b c d f (suc (suc (suc zero))) n e = at (P 3) d e
each P a b c d f (suc (suc (suc (suc zero)))) n e = at (P 4) f e
each P a b c d f (suc (suc (suc (suc (suc r))))) n e = cc

exists : (r : Ref) → Has (0 ∷ 1 ∷ 2 ∷ 3 ∷ 4 ∷ []) r → Exists ring r
exists zero h = (node_at 0, refl)
exists (suc zero) h = (node_at 1, refl)
exists (suc (suc zero)) h = (node_at 2, refl)
exists (suc (suc (suc zero))) h = (node_at 3, refl)
exists (suc (suc (suc (suc zero)))) h = (node_at 4, refl)
exists (suc (suc (suc (suc (suc r))))) h = absurd (ground arith)

ring-IsLayered : IsLayered ring ring_rank
ring-IsLayered = record {
  depends =
      each (λ r n. All (λ d. (ring_rank d < ring_rank r) × Exists ring d) (needs ring n)) tt
        ((omega arith, exists 0 refl), tt) ((omega arith, exists 1 refl), tt)
        ((omega arith, exists 2 refl), ((omega arith, exists 4 refl), tt)) tt;
  refers =
      each (λ r n. All (Exists ring) (mentions n)) tt (exists 0 refl, tt) (exists 1 refl, tt)
        (exists 2 refl, (exists 4 refl, tt)) (exists 3 refl, tt);
}

sorted_ring : sort_types 4 6 ring ≡ ok (record ring { final_types = 0 ∷ 1 ∷ 2 ∷ 4 ∷ 3 ∷ [] })
unfolding sort_types
sorted_ring = refl

sort_types-Sorted_example :
    (sorted : List Ref) × (sort_types 4 6 ring ≡ ok (record ring { final_types = sorted }))
    × Sorted ring sorted
    × All (Declared ring sorted) ring.root_types
    × All (λ r. All (Declared ring sorted) (mentions_at ring r)) sorted
unfolding turns_enough unvisited calls_before put_off children_of
sort_types-Sorted_example =
    sort_types-Sorted ring ring_rank 4 ring-IsLayered ring_rank_bounded (exists 3 refl, tt) 6
      (omega arith)
