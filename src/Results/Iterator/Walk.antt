-- ===== src/Results/Iterator/Walk.antt =====
-- The same traversal without a stack: an element, then all below it, with the path that leads there.
use object_introspection.Prelude.{
  ℕ, zero, suc, ◌+◌, List, [], ◌∷◌, ◌++◌, map, Option, none, some, Outcome, ok, err, dangling,
  out_of_fuel, of_option, ◌>>=◌, String, get_elem?,
}
use object_introspection.Results.{Element}
use object_introspection.Results.Iterator.{
  Inst, pop_type_path, repeat, field, Field, process, gen_name_from_data, new_element, renamed,
}

module _ (table : List Field) (show_pointer : ℕ → String) where
  -- The element of a field, the path below it, what comes below it, and the rest of the segment.
  pub record Visited : Type 0 where
    pub element : Element
    pub path : List String
    pub below : List Inst
    pub bytes : List ℕ

  unfoldable pub named :
      Field → List String → Element → List Inst → List ℕ → Option String → Visited
  named f path e pushed bytes none = record {
    element = e;
    path = f.name ∷ path;
    below = map field f.fields ++ pushed;
    bytes = bytes;
  }
  named f path e pushed bytes (some name) = record {
    element = renamed table show_pointer name path e;
    path = name ∷ path;
    below = map field f.fields ++ pushed;
    bytes = bytes;
  }

  unfoldable pub visited : Field → List String → List ℕ → Outcome Visited
  unfolding process gen_name_from_data named
  visited f path bytes =
      process table show_pointer f.processors (new_element table show_pointer f (f.name ∷ path)) []
        bytes
      >>= λ (e, pushed, bytes').
          ok (named f path e pushed bytes' (gen_name_from_data table show_pointer e.payload))

  -- The elements of instructions, in order, what is left of the segment, and the number of
  -- instructions executed, each field with the end of its frame.
  pub record Walked : Type 0 where
    pub elements : List Element
    pub rest : List ℕ
    pub work : ℕ

  abbrev pub one_more : Walked → Walked
  one_more w = record w { work = suc w.work }

  abbrev pub around : Element → Walked → Walked → Walked
  around e v w = record {
    elements = e ∷ (v.elements ++ w.elements);
    rest = w.rest;
    work = suc (v.work + suc w.work);
  }

  -- A processor that pushes `PopTypePath` has no traversal.
  unfoldable pub walk : ℕ → List Inst → List String → List ℕ → Outcome Walked
  unfolding visited
  walk zero is path bytes = out_of_fuel
  walk (suc n) [] path bytes = ok (record { elements = []; rest = bytes; work = 0 })
  walk (suc n) (pop_type_path ∷ is) path bytes = err dangling
  walk (suc n) (repeat zero r ∷ is) path bytes = walk n is path bytes >>= λ w. ok (one_more w)
  walk (suc n) (repeat (suc k) r ∷ is) path bytes =
      walk n (field r ∷ repeat k r ∷ is) path bytes >>= λ w. ok (one_more w)
  walk (suc n) (field r ∷ is) path bytes = of_option dangling (get_elem? table r) >>= λ f.
      visited f path bytes >>= λ v. walk n v.below v.path v.bytes >>= λ w.
      walk n is path w.rest >>= λ w'. ok (around v.element w w')
