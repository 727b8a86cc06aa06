-- ===== src/Store/Ids.antt =====
-- Ids are unique: a new node gets one that no earlier node has, and the earlier nodes stay put.
use object_introspection.Prelude.{
  ℕ, zero, suc, ap, ◌∙◌, ◌<◌, ◌≡◌, inl, inr, ◌⊎◌, List, [], ◌∷◌, ◌++◌, some, length, get_elem?,
  get_elem?-append_left, get_elem?-append_end, lt-length_of_get_elem?, arith,
}
use object_introspection.Types.{Ref, NodeId, Node, node_id}
use object_introspection.Store.{TypeGraph, deref, make_type}

-- Every id in use is below `next_id`, and no two addresses share one.
pub record HasUniqueIds (g : TypeGraph) : Type 0 where
  pub below :
      (r : Ref) (n : Node) (i : NodeId) → deref g r ≡ some n → node_id n ≡ some i → i < g.next_id
  pub unique :
      (r s : Ref) (n m : Node) (i : NodeId)
      → deref g r ≡ some n
      → deref g s ≡ some m
      → node_id n ≡ some i
      → node_id m ≡ some i
      → r ≡ s

-- An address in a list with one more item is an old one or the last.
pub get_elem?-snoc_cases {ℓ} :
    {A : Type ℓ} (xs : List A) (y : A) (r : ℕ) {v : A}
    → get_elem? (xs ++ y ∷ []) r ≡ some v
    → (get_elem? xs r ≡ some v) ⊎ (r ≡ length xs) × (v ≡ y)
get_elem?-snoc_cases [] y zero h = ground arith
get_elem?-snoc_cases [] y (suc r) h = cc
get_elem?-snoc_cases (x ∷ xs) y zero h = inl h
get_elem?-snoc_cases (x ∷ xs) y (suc r) h = elim (get_elem?-snoc_cases xs y r h) [
  | inl old ↦ inl old
  | inr (e, k) ↦ inr (ap suc e, k)
]

-- A new node leaves what every earlier reference refers to.
pub deref-make_type :
    (make : NodeId → Node) (g : TypeGraph) (r : Ref) (n : Node)
    → deref g r ≡ some n
    → deref (make_type make g).1 r ≡ some n
unfolding make_type
deref-make_type make g r n h =
    get_elem?-append_left g.nodes _ r (lt-length_of_get_elem? g.nodes r h) ∙ h

-- The reference that `make_type` returns refers to the node made with the id `next_id`.
pub deref-make_type_new :
    (make : NodeId → Node) (g : TypeGraph)
    → deref (make_type make g).1 (make_type make g).0 ≡ some (make g.next_id)
unfolding make_type
deref-make_type_new make g = get_elem?-append_end g.nodes (make g.next_id)

-- If the ids of a graph are unique then they are so with one more node, whose id is new.
pub make_type-HasUniqueIds :
    (make : NodeId → Node) (g : TypeGraph)
    → ((i : NodeId) → node_id (make i) ≡ some i)
    → HasUniqueIds g
    → HasUniqueIds (make_type make g).1
unfolding make_type
make_type-HasUniqueIds make g named h = record {
  below = λ r n i e k. ground (
    arith,
    get_elem?-snoc_cases g.nodes (make g.next_id) r {v = n} e,
    h.below r n i,
    named g.next_id,
  );
  unique = λ r s n m i e f k l. ground (
    arith,
    get_elem?-snoc_cases g.nodes (make g.next_id) r {v = n} e,
    get_elem?-snoc_cases g.nodes (make g.next_id) s {v = m} f,
    h.below r n i,
    h.below s m i,
    h.unique r s n m i,
    named g.next_id,
  );
}
