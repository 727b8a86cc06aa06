-- ===== src/Examples/Pruning.antt =====
-- Pruning the sample family of classes.
use object_introspection.Prelude.{
  ℕ, List, Bool, false, Option, none, some, ltb, ◌&&◌, All, All-get_elem?, ◌⊎◌, err, Error, arith,
  ◌≡◌, refl, ok, true, [], ◌∷◌, ◌++◌,
}
use object_introspection.Types.{Ref, NodeId, Node, node_id, class_node, typedef}
use object_introspection.Store.{empty}
use object_introspection.Layout.{size_of, align_of}
use object_introspection.Tracker.{fresh}
use object_introspection.Tracker
use object_introspection.Flattener.{Tracked}
use object_introspection.Prune.{pruned_class, prune}
use object_introspection.Prune.Ends.{prune-Ends, HasNumber, IsNumbered}
use object_introspection.Visitor.Links.{links}
use object_introspection.Examples.Samples.{family, base, derived}

abbrev unpruned : Tracked
unpruned = record { tracker = fresh 3; graph = family }

abbrev pruned : Tracked
pruned = record {
  tracker = record { visited = true ∷ true ∷ true ∷ [] };
  graph = record family {
    nodes =
        empty.nodes
        ++ (class_node (pruned_class base)
            ∷ class_node (pruned_class derived)
            ∷ typedef
                (record { name = "Alias"; input_name = "Alias"; underlying_type = 15; id = 2 })
            ∷ []);
  };
}

prune_family : prune 5 unpruned ≡ ok pruned
unfolding prune Tracker.visit
prune_family = refl

abbrev is_nil : List Ref → Bool
is_nil [] = true
is_nil (r ∷ rs) = false

-- The ids of the classes and of the typedef are 0, 1 and 2.
abbrev is_numbered : Option NodeId → List Ref → Bool
is_numbered none rs = is_nil rs
is_numbered (some i) rs = ltb i 3

abbrev all_numbered : List Node → Bool
all_numbered [] = true
all_numbered (n ∷ ns) = is_numbered (node_id n) (links n) && all_numbered ns

is_nil-eq : (rs : List Ref) → is_nil rs ≡ true → rs ≡ []
is_nil-eq [] h = refl
is_nil-eq (r ∷ rs) h = cc

is_numbered-IsNumbered :
    (o : Option NodeId) (rs : List Ref) → is_numbered o rs ≡ true → HasNumber 3 o rs
is_numbered-IsNumbered none rs h = is_nil-eq rs h
is_numbered-IsNumbered (some i) rs h = ground arith

all_numbered-All : (ns : List Node) → all_numbered ns ≡ true → All (IsNumbered 3) ns
all_numbered-All [] h = tt
all_numbered-All (n ∷ ns) h = (
  is_numbered-IsNumbered (node_id n) (links n) (ground arith),
  all_numbered-All ns (ground arith),
)

prune-Ends_example :
    ((s' : Tracked) × (prune 4 unpruned ≡ ok s')
      × ((f : ℕ) (r : Ref)
          → (size_of f s'.graph r ≡ size_of f unpruned.graph r)
            × (align_of f s'.graph r ≡ align_of f unpruned.graph r)))
    ⊎ ((e : Error) × (prune 4 unpruned ≡ err e))
prune-Ends_example =
    prune-Ends 3 4 unpruned
      (λ r n. All-get_elem? (IsNumbered 3) family.nodes r n (all_numbered-All family.nodes refl))
      (omega arith)
