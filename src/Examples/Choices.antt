-- ===== src/Examples/Choices.antt =====
-- The library feature chosen on the command line, with and without what it needs.
use object_introspection.Prelude.{
  ◌≡◌, refl, List, [], ◌∷◌, Option, none, some, Bool, true, false, ok, arith,
}
use object_introspection.Features.{
  library, tree_builder_v2, type_graph, jit_logging, chase_raw_pointers, FeatureSet, set_bit,
  feature_from_str, feature_to_str, handle_feature_conflicts,
}
use object_introspection.Features.Conflicts.{Settles, handle_feature_conflicts-Settles}
use object_introspection.Features.Names.{feature_from_str-feature_to_str}

abbrev no_features : FeatureSet
no_features f = false

abbrev only_library : FeatureSet
only_library = set_bit library true no_features

abbrev names : Option FeatureSet → List Bool
names none = []
names (some s) = s library ∷ s tree_builder_v2 ∷ s type_graph ∷ s chase_raw_pointers ∷ []

library_needs :
    (o : Option FeatureSet) × (handle_feature_conflicts 15 only_library no_features ≡ ok o)
    × (names o ≡ true ∷ true ∷ true ∷ false ∷ [])
unfolding handle_feature_conflicts
library_needs = (_, refl, refl)

library_refused :
    handle_feature_conflicts 15 only_library (set_bit type_graph true no_features) ≡ ok none
unfolding handle_feature_conflicts
library_refused = refl

library_logged :
    handle_feature_conflicts 15 (set_bit jit_logging true only_library) no_features ≡ ok none
unfolding handle_feature_conflicts
library_logged = refl

handle_feature_conflicts-Settles_example :
    (o : Option FeatureSet) × (handle_feature_conflicts 15 only_library no_features ≡ ok o)
    × Settles only_library no_features o
handle_feature_conflicts-Settles_example =
    handle_feature_conflicts-Settles only_library no_features 15 refl (omega arith)

feature_from_str-feature_to_str_example :
    feature_from_str (feature_to_str tree_builder_v2) ≡ tree_builder_v2
feature_from_str-feature_to_str_example = feature_from_str-feature_to_str tree_builder_v2
