-- ===== src/Examples/Managed.antt =====
-- All passes on a small graph, and the parameters of a vector run through TypeIdentifier.
use object_introspection.Prelude.{
  ◌≡◌, refl, ok, List, [], ◌∷◌, ◌++◌, true, false, pos, replicate, to_string, ◌>>=◌,
}
use object_introspection.Types.{TemplateParam, Class, class_node, dummy_allocator}
use object_introspection.Store.{TypeGraph, empty}
use object_introspection.Store.Extension.{Extends}
use object_introspection.Tracker
use object_introspection.Tracker.{NodeTracker}
use object_introspection.Features.{prune_type_graph, tree_builder_v2}
use object_introspection.TypeIdentifier.{Identifier, identify_params}
use object_introspection.TypeIdentifier.Again.{identify_params-again}
use object_introspection.PassManager.{Config, transform, transform_passes}
use object_introspection.PassManager.Runs.{run_fresh, transform-run_fresh}
use object_introspection.Flattener.{new_param}
use object_introspection.Examples.Containers.{before, vector_info}
use object_introspection.Examples.Samples.{plain_class}

abbrev config : Config
config = record {
  features = λ f. elim f [ tree_builder_v2 ↦ true | prune_type_graph ↦ true | _ ↦ false ];
  container_infos = vector_info ∷ [];
  pass_through_types = [];
  members_to_stub = [];
  keys_to_capture = [];
  add_children = λ g t. ok (g, t);
  fuel = 9;
  turns = 9;
}

-- A printer that marks everything.
abbrev marking : TypeGraph → NodeTracker → NodeTracker
marking g t = record { visited = replicate 9 true }

sorted_types :
    (transform config true marking before >>= λ g. ok g.final_types) ≡ ok (18 ∷ 16 ∷ 15 ∷ [])
unfolding transform Tracker.visit
sorted_types = refl

transform-run_fresh_example :
    transform config true marking before ≡ run_fresh (transform_passes config) before
transform-run_fresh_example = transform-run_fresh config true marking before

-- The parameters of a container: an element, and a stub.
abbrev allocator : Class
allocator = record (plain_class "allocator" [] [] 1 1) {
  template_params = new_param 2 ∷ [];
  functions = record { name = "allocate"; virtuality = pos 0 } ∷ [];
}

abbrev with_allocator : Identifier
with_allocator = record {
  tracker = record { visited = [] };
  graph = record empty { nodes = empty.nodes ++ (class_node allocator ∷ []); next_id = 2 };
  dummies = [];
}

abbrev dummies : Identifier
dummies = record {
  tracker = record { visited = [] };
  graph = record empty {
    nodes =
        empty.nodes
        ++ (class_node allocator
            ∷ dummy_allocator (record {
              type = 2;
              size = 0;
              align = 0;
              id = 2;
              name = "DummyAllocator<int32_t, 0, 0, 2>";
              input_name = "allocator";
            })
            ∷ []);
    next_id = 3;
  };
  dummies = [];
}

abbrev params : List TemplateParam
params = new_param 2 ∷ new_param 16 ∷ []

identified :
    identify_params 3 [] (1 ∷ []) 0 (new_param 2 ∷ new_param 15 ∷ []) with_allocator
    ≡ ok (params, dummies)
unfolding identify_params to_string
identified = refl

identify_params-again_example :
    Extends with_allocator.graph dummies.graph
    × (identify_params 3 [] (1 ∷ []) 0 params dummies ≡ ok (params, dummies))
identify_params-again_example =
    identify_params-again 3 [] (1 ∷ []) 0 (new_param 2 ∷ new_param 15 ∷ []) params with_allocator
      dummies (λ id r e. cc) identified
