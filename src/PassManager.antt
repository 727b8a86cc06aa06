-- ===== src/PassManager.antt =====
-- oi/type_graph/PassManager.cpp and CodeGen::transform of oi/CodeGen.cpp: the passes, one after the
-- other on one graph and with one tracker.
pub mod Runs
use object_introspection.Prelude.{
  ℕ, List, [], ◌∷◌, ◌++◌, Bool, true, false, not, ◌&&◌, Outcome, ok, ◌>>=◌, String, if◌then◌else◌,
}
use object_introspection.Types.{ContainerInfo}
use object_introspection.Store.{TypeGraph, size}
use object_introspection.Tracker.{NodeTracker, fresh, holder_get_sized}
use object_introspection.Features.{
  Feature, prune_type_graph, polymorphic_inheritance, tree_builder_v2,
}
use object_introspection.Visitor.{Walk}
use object_introspection.RemoveTopLevelPointer.{remove_top_level_pointers}
use object_introspection.IdentifyContainers.{identify_containers}
use object_introspection.Flattener.{Tracked, flatten}
use object_introspection.Alignment.{calculate_alignments}
use object_introspection.TypeIdentifier.{identify_types}
use object_introspection.Prune.{prune}
use object_introspection.RemoveMembers.{remove_members}
use object_introspection.EnforceCompatibility.{enforce_compatibility}
use object_introspection.KeyCapture.{KeyToCapture, insert_capture_data_nodes}
use object_introspection.Padding.{add_padding}
use object_introspection.NameGen.{generate_names}
use object_introspection.TopoSorter.{sort_types}

-- `Pass::PassFn`
abbrev pub PassFn : Type 0
PassFn = TypeGraph → NodeTracker → Outcome (TypeGraph × NodeTracker)

pub record Pass : Type 0 where
  pub name : String
  pub fn : PassFn

unfoldable pub run_pass : Pass → PassFn
unfolding holder_get_sized
run_pass pass g t = pass.fn g (holder_get_sized (size g) t)

-- `verbose` is `VLOG_IS_ON(1)`, and `printer` what printing a graph leaves in the tracker.
module _ (verbose : Bool) (printer : TypeGraph → NodeTracker → NodeTracker) where
  unfoldable pub print : TypeGraph → NodeTracker → NodeTracker
  unfolding holder_get_sized
  print g t = if verbose then printer g (holder_get_sized (size g) t) else t

  -- The loop over the passes.
  unfoldable pub run_all : List Pass → TypeGraph → NodeTracker → Outcome TypeGraph
  unfolding run_pass print
  run_all [] g t = ok g
  run_all (pass ∷ passes) g t = run_pass pass g t >>= λ (g', t'). run_all passes g' (print g' t')

  -- `PassManager::run`
  unfoldable pub run : List Pass → TypeGraph → Outcome TypeGraph
  unfolding run_all
  run passes g = run_all passes g (print g (fresh 0))

-- What the passes of a run are made from. `add_children` is the pass AddChildren with its reader of
-- types, and the numbers are the fuel of the passes.
pub record Config : Type 0 where
  pub features : Feature → Bool
  pub container_infos : List ContainerInfo
  pub pass_through_types : List ContainerInfo
  pub members_to_stub : List (String × String)
  pub keys_to_capture : List KeyToCapture
  pub add_children : PassFn
  pub fuel : ℕ
  pub turns : ℕ

abbrev on_graph : (TypeGraph → Outcome TypeGraph) → PassFn
on_graph f g t = f g >>= λ g'. ok (g', t)

abbrev on_tracked : (Tracked → Outcome Tracked) → PassFn
on_tracked f g t = f (record { tracker = t; graph = g }) >>= λ s. ok (s.graph, s.tracker)

abbrev walk_graph : Outcome Walk → Outcome TypeGraph
walk_graph o = o >>= λ s. ok s.graph

abbrev named_pass : String → PassFn → Pass
named_pass name fn = record { name = name; fn = fn }

abbrev when : Bool → List Pass → List Pass
when b passes = if b then passes else []

-- The `createPass` functions, by the names that they give.
module _ (c : Config) where
  abbrev identify_containers_pass : Pass
  identify_containers_pass =
      named_pass "IdentifyContainers" (on_graph (identify_containers c.container_infos c.fuel))

  abbrev flattener_pass : Pass
  flattener_pass = named_pass "Flattener" (on_tracked (flatten c.fuel c.fuel))

  abbrev alignment_calc_pass : Pass
  alignment_calc_pass =
      named_pass "AlignmentCalc" (on_graph (λ g. walk_graph (calculate_alignments c.fuel c.fuel g)))

  abbrev type_identifier_pass : Pass
  type_identifier_pass = named_pass "TypeIdentifier" (λ g t.
      identify_types c.fuel c.pass_through_types c.fuel t g >>= λ s. ok (s.graph, s.tracker))

  abbrev key_capture_pass : Pass
  key_capture_pass = named_pass "KeyCapture" (λ g t.
      insert_capture_data_nodes c.fuel c.keys_to_capture
        (record { tracker = t; graph = g; infos = [] })
      >>= λ s. ok (s.graph, s.tracker))

  -- The passes that are run again on the children that were added.
  abbrev simplifying_passes : List Pass
  simplifying_passes =
      identify_containers_pass
      ∷ flattener_pass
      ∷ alignment_calc_pass
      ∷ type_identifier_pass
      ∷ when (c.features prune_type_graph) (named_pass "Prune" (on_tracked (prune c.fuel)) ∷ [])

  abbrev is_empty : List KeyToCapture → Bool
  is_empty [] = true
  is_empty (k ∷ ks) = false

  -- The passes that `CodeGen::transform` adds, in order.
  abbrev pub transform_passes : List Pass
  transform_passes =
      named_pass "RemoveTopLevelPointer" (on_graph remove_top_level_pointers)
      ∷ (simplifying_passes
          ++ (when (c.features polymorphic_inheritance)
                (named_pass "AddChildren" c.add_children ∷ simplifying_passes)
              ++ (named_pass "RemoveMembers"
                    (on_graph (λ g. walk_graph (remove_members c.members_to_stub c.fuel g)))
                  ∷ (when (not (c.features tree_builder_v2)) (
                        named_pass "EnforceCompatibility"
                          (on_tracked (enforce_compatibility c.fuel))
                        ∷ [])
                      ++ (when (c.features tree_builder_v2 && not (is_empty c.keys_to_capture))
                            (key_capture_pass ∷ [])
                          ++ (named_pass "AddPadding"
                                (on_graph (λ g. walk_graph (add_padding c.fuel c.fuel g)))
                              ∷ named_pass "NameGen"
                                  (on_graph (λ g. generate_names c.fuel g >>= λ s. ok s.graph))
                              ∷ named_pass "TopoSorter" (on_graph (sort_types c.fuel c.turns))
                              ∷ []))))))

  -- `CodeGen::transform`
  unfoldable pub transform :
      (verbose : Bool) (printer : TypeGraph → NodeTracker → NodeTracker)
      → TypeGraph
      → Outcome TypeGraph
  unfolding run remove_top_level_pointers flatten calculate_alignments identify_containers
      identify_types prune remove_members enforce_compatibility insert_capture_data_nodes
      add_padding generate_names sort_types
  transform verbose printer g = run verbose printer transform_passes g
