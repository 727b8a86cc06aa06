-- ===== src/Features.antt =====
-- oi/Features.h, oi/Features.cpp and oi/EnumBitset.h: the features, what they need of each other, and
-- the check of a set of them. A bitset is the function that reads its bits.
pub mod Bits
pub mod Requires
pub mod Rounds
pub mod Checks
pub mod Conflicts
pub mod Names
use object_introspection.Prelude.{
  ℕ, zero, suc, List, [], ◌∷◌, Option, none, some, Bool, true, false, Outcome, ok, err,
  runtime_error, out_of_fuel, ◌>>=◌, if◌then◌else◌, ◌==◌, ◌||◌, String, str_eq,
}

pub data Feature : Type 0 where
  unknown_feature chase_raw_pointers pack_structs gen_padding_stats : Feature
  capture_thrift_isset type_graph prune_type_graph library tree_builder_v2 : Feature
  gen_jit_debug jit_logging jit_timing polymorphic_inheritance : Feature

-- `static_cast<size_t>(f)`, the number of the feature's bit.
abbrev pub bit : Feature → ℕ
bit unknown_feature = 0
bit chase_raw_pointers = 1
bit pack_structs = 2
bit gen_padding_stats = 3
bit capture_thrift_isset = 4
bit type_graph = 5
bit prune_type_graph = 6
bit library = 7
bit tree_builder_v2 = 8
bit gen_jit_debug = 9
bit jit_logging = 10
bit jit_timing = 11
bit polymorphic_inheritance = 12

abbrev pub all_features : List Feature
all_features =
    chase_raw_pointers ∷ pack_structs ∷ gen_padding_stats ∷ capture_thrift_isset ∷ type_graph
    ∷ prune_type_graph ∷ library ∷ tree_builder_v2 ∷ gen_jit_debug ∷ jit_logging ∷ jit_timing
    ∷ polymorphic_inheritance ∷ []

abbrev pub FeatureSet : Type 0
FeatureSet = Feature → Bool

-- `bitset[f] = b`.
abbrev pub set_bit : Feature → Bool → FeatureSet → FeatureSet
set_bit f b s g = if bit f == bit g then b else s g

abbrev pub any_of : List Feature → FeatureSet → Bool
any_of [] s = false
any_of (f ∷ fs) s = s f || any_of fs s

-- `any()`, over all bits.
abbrev pub any : FeatureSet → Bool
any s = any_of (unknown_feature ∷ all_features) s

abbrev pub requirements : Feature → List Feature
requirements tree_builder_v2 = type_graph ∷ []
requirements library = tree_builder_v2 ∷ []
requirements _ = []

abbrev pub conflicts : Feature → List Feature
conflicts library = jit_logging ∷ jit_timing ∷ []
conflicts _ = []

unfoldable pub feature_to_str : Feature → String
feature_to_str unknown_feature = "UnknownFeature"
feature_to_str chase_raw_pointers = "chase-raw-pointers"
feature_to_str pack_structs = "pack-structs"
feature_to_str gen_padding_stats = "gen-padding-stats"
feature_to_str capture_thrift_isset = "capture-thrift-isset"
feature_to_str type_graph = "type-graph"
feature_to_str prune_type_graph = "prune-type-graph"
feature_to_str library = "library"
feature_to_str tree_builder_v2 = "tree-builder-v2"
feature_to_str gen_jit_debug = "gen-jit-debug"
feature_to_str jit_logging = "jit-logging"
feature_to_str jit_timing = "jit-timing"
feature_to_str polymorphic_inheritance = "polymorphic-inheritance"

-- `nameMap.find(str)`.
unfoldable pub find_name : List Feature → String → Feature
unfolding feature_to_str
find_name [] s = unknown_feature
find_name (f ∷ fs) s = let rest = find_name fs s in if str_eq (feature_to_str f) s then f else rest

unfoldable pub feature_from_str : String → Feature
unfolding find_name
feature_from_str s = find_name all_features s

-- `enabled` and `toCheck`.
pub record Checking : Type 0 where
  pub enabled : FeatureSet
  pub to_check : FeatureSet

-- `enabled[r] = true; toCheck[r] = true`.
abbrev pub require : Feature → Checking → Checking
require r s = record { enabled = set_bit r true s.enabled; to_check = set_bit r true s.to_check }

-- The loop over the requirements of a feature; `none` is the return for one that is disabled.
unfoldable pub require_all : FeatureSet → List Feature → Checking → Option Checking
require_all disabled [] s = some s
require_all disabled (r ∷ rs) s =
    let rest : Option Checking = require_all disabled rs (if s.enabled r then s else require r s) in
    if s.enabled r then rest else if disabled r then none else rest

-- The body of the loop over the features.
unfoldable pub check_feature : FeatureSet → Feature → Checking → Option Checking
unfolding require_all
check_feature disabled f s =
    if s.to_check f
    then require_all disabled (requirements f) (record s { to_check = set_bit f false s.to_check })
    else some s

unfoldable pub check_round : FeatureSet → List Feature → Checking → Option Checking
unfolding check_feature
check_round disabled [] s = some s
check_round disabled (f ∷ fs) s = elim (check_feature disabled f s) [
  | none ↦ none
  | some s' ↦ check_round disabled fs s'
]

-- `while (toCheck.any())`; the fuel bounds the rounds.
unfoldable pub check_all : ℕ → FeatureSet → Checking → Outcome (Option FeatureSet)
unfolding check_round
check_all zero disabled s = out_of_fuel
check_all (suc n) disabled s = elim (any s.to_check) [
  | false ↦ ok (some s.enabled)
  | true ↦ elim (check_round disabled all_features s) [
    | none ↦ ok none
    | some s' ↦ check_all n disabled s'
  ]
]

-- The loop over the conflicts of the enabled features.
unfoldable pub conflict_free : FeatureSet → List Feature → Bool
conflict_free s [] = true
conflict_free s (f ∷ fs) =
    let rest = conflict_free s fs in
    if s f then (if any_of (conflicts f) s then false else rest) else rest

-- From the check of the conflicts on.
abbrev pub without_conflicts : Option FeatureSet → Outcome (Option FeatureSet)
without_conflicts none = ok none
without_conflicts (some s) = ok (if conflict_free s all_features then some s else none)

unfoldable pub handle_feature_conflicts : ℕ → FeatureSet → FeatureSet → Outcome (Option FeatureSet)
unfolding check_all conflict_free
handle_feature_conflicts n enabled disabled =
    check_all n disabled (record { enabled = enabled; to_check = enabled }) >>= without_conflicts
