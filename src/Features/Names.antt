-- ===== src/Features/Names.antt =====
-- The names of the features: reading a name gives the feature that is written so.
use text.Mathlib.TextEquality.{eq_iff}
use object_introspection.Prelude.{
  ◌≡◌, refl, List, [], ◌∷◌, false, All, arith, Bool-cases, inl, inr, ◌⊎◌, String, str_eq,
}
use object_introspection.Features.{
  Feature, unknown_feature, chase_raw_pointers, pack_structs, gen_padding_stats,
  capture_thrift_isset, type_graph, prune_type_graph, library, tree_builder_v2, gen_jit_debug,
  jit_logging, jit_timing, polymorphic_inheritance, all_features, feature_to_str, feature_from_str,
  find_name,
}

find_name-cases :
    (fs : List Feature) (s : String)
    → ((find_name fs s ≡ unknown_feature) × All (λ f. str_eq (feature_to_str f) s ≡ false) fs)
      ⊎ (feature_to_str (find_name fs s) ≡ s)
unfolding find_name
find_name-cases [] s = inl (refl, tt)
find_name-cases (f ∷ fs) s = elim (Bool-cases (str_eq (feature_to_str f) s)) [
  | inl same ↦ rw same (inr (ground (arith, eq_iff (feature_to_str f) s)))
  | inr other ↦
      rw other (elim (find_name-cases fs s) [
        | inl (e, out) ↦ inl (e, (refl, out))
        | inr named ↦ inr named
      ])
]

-- A name that is read gives a feature with this name, or the unknown feature where none has it.
pub feature_from_str-cases :
    (s : String)
    → ((feature_from_str s ≡ unknown_feature)
        × All (λ f. str_eq (feature_to_str f) s ≡ false) all_features)
      ⊎ (feature_to_str (feature_from_str s) ≡ s)
unfolding feature_from_str
feature_from_str-cases s = find_name-cases all_features s

-- The name of each feature is read as this feature; that of the unknown one is no feature's name.
pub feature_from_str-feature_to_str : (f : Feature) → feature_from_str (feature_to_str f) ≡ f
unfolding feature_from_str
feature_from_str-feature_to_str unknown_feature = refl
feature_from_str-feature_to_str chase_raw_pointers = refl
feature_from_str-feature_to_str pack_structs = refl
feature_from_str-feature_to_str gen_padding_stats = refl
feature_from_str-feature_to_str capture_thrift_isset = refl
feature_from_str-feature_to_str type_graph = refl
feature_from_str-feature_to_str prune_type_graph = refl
feature_from_str-feature_to_str library = refl
feature_from_str-feature_to_str tree_builder_v2 = refl
feature_from_str-feature_to_str gen_jit_debug = refl
feature_from_str-feature_to_str jit_logging = refl
feature_from_str-feature_to_str jit_timing = refl
feature_from_str-feature_to_str polymorphic_inheritance = refl
