-- ===== src/Results/Iterator.antt =====
-- oi/IntrospectionResult.cpp, include/oi/IntrospectionResult.h, IntrospectionResult-inl.h and
-- include/oi/exporters/inst.h: the iterator that reads a data segment by a stack of instructions.
-- A `const Field&` is an address in the table of the fields. The processors of a field are functions
-- of the generated code: each is given the element, the data parsed so far and the rest of the
-- segment, and returns the element, the instructions that it pushes, in order, and what is left of
-- the segment. They leave the element's type path alone.
pub mod Walk
pub mod Entered
pub mod Simulation
pub mod Loop
use mathlib.Core.List.{reverse}
use object_introspection.Prelude.{
  ℕ, zero, suc, ◌+◌, List, [], ◌∷◌, ◌++◌, map, Option, none, some, Bool, true, false, Outcome, ok,
  err, aborted, dangling, out_of_fuel, of_option, ◌>>=◌, if◌then◌else◌, ◌==◌, length, String, ◌&◌,
  to_string, add_u64, get_elem?,
}
use object_introspection.Wire.{Dynamic}
use object_introspection.Wire.Parsed.{ParsedData, parse}
use object_introspection.Results.{Element, ElementData, no_data, pointer_data, scalar, text}

pub data Inst : Type 0 where
  pop_type_path : Inst
  repeat : (n field : ℕ) → Inst
  field : ℕ → Inst

abbrev pub Handler : Type 0
Handler = Element → ParsedData → List ℕ → Outcome (Element × List Inst × List ℕ)

pub record Field : Type 0 where
  pub static_size : ℕ
  pub exclusive_size : ℕ
  pub name : String
  pub type_names : List String
  pub fields : List ℕ
  pub processors : List (Dynamic × Handler)
  pub is_primitive : Bool

-- What an increment works on. The tops of the stack, of `type_path_` and of `dynamic_type_path_` are
-- the heads. `bytes` is what is left of the segment behind `data_`.
pub record Core : Type 0 where
  pub bytes : List ℕ
  pub stack : List Inst
  pub type_path : List String
  pub dynamic_type_path : List (ℕ × String)

pub record ResultIterator : Type 0 where
  pub core : Core
  pub next : Option Element
  pub increments : ℕ

-- Printing a `void*` is left to the library: `show_pointer` is its text.
module _ (table : List Field) (show_pointer : ℕ → String) where
  unfoldable pub gen_name_from_data : ElementData → Option String
  gen_name_from_data (text s) = some ("[" & s & "]")
  gen_name_from_data (pointer_data p) = some ("[" & show_pointer p & "]")
  gen_name_from_data (scalar n) = some ("[" & to_string n & "]")
  gen_name_from_data no_data = none

  unfoldable pub push_all : List Inst → List Inst → List Inst
  push_all [] st = st
  push_all (i ∷ is) st = push_all is (i ∷ st)

  -- The loop over the processors.
  unfoldable pub process :
      List (Dynamic × Handler)
      → Element
      → List Inst
      → List ℕ
      → Outcome (Element × List Inst × List ℕ)
  unfolding push_all
  process [] e st bytes = ok (e, st, bytes)
  process ((dy, handler) ∷ ps) e st bytes = parse dy bytes >>= λ (parsed, bytes₁).
      handler e parsed bytes₁ >>= λ (e', pushed, bytes₂). process ps e' (push_all pushed st) bytes₂

  abbrev pub new_element : Field → List String → Element
  new_element f path = record {
    name = f.name;
    type_path = reverse path;
    type_names = f.type_names;
    static_size = f.static_size;
    exclusive_size = f.exclusive_size;
    pointer = none;
    payload = no_data;
    container_stats = none;
    is_set_stats = none;
    is_primitive = f.is_primitive;
  }

  -- `type_path_.back() = new_name_ref`, seen through the path of the element, which is a view of it.
  abbrev pub renamed : String → List String → Element → Element
  renamed name up e = record e { name = name; type_path = reverse (name ∷ up) }

  -- Behind the processors: the new name if there is one, and the fields pushed, the first on top.
  unfoldable pub name_field :
      Field → Core → Element → List Inst → List ℕ → Option String → Element × Core
  name_field f c e st bytes none = (
    e,
    record {
      bytes = bytes;
      stack = map field f.fields ++ st;
      type_path = f.name ∷ c.type_path;
      dynamic_type_path = c.dynamic_type_path;
    },
  )
  name_field f c e st bytes (some name) = (
    renamed name c.type_path e,
    record {
      bytes = bytes;
      stack = map field f.fields ++ st;
      type_path = name ∷ c.type_path;
      dynamic_type_path = (suc (length c.type_path), name) ∷ c.dynamic_type_path;
    },
  )

  -- The case of a field.
  unfoldable pub visit_field : Field → Core → Outcome (Element × Core)
  unfolding process gen_name_from_data name_field
  visit_field f c =
      process f.processors (new_element f (f.name ∷ c.type_path)) (pop_type_path ∷ c.stack) c.bytes
      >>= λ (e, st, bytes). ok (name_field f c e st bytes (gen_name_from_data e.payload))

  -- `if (!dynamic_type_path_.empty() && dynamic_type_path_.back().first == type_path_.size())`.
  unfoldable pub pop_dynamic : ℕ → List (ℕ × String) → List (ℕ × String)
  pop_dynamic size [] = []
  pop_dynamic size ((depth, name) ∷ ds) = if depth == size then ds else (depth, name) ∷ ds

  -- `type_path_.pop_back()`, undefined for an empty path.
  abbrev pub pop_path : List String → Outcome (List String)
  pop_path [] = err dangling
  pop_path (n ∷ up) = ok up

  -- One instruction, taken off the stack; an element ends the increment.
  unfoldable pub step : Inst → Core → Outcome (Option Element × Core)
  unfolding visit_field pop_dynamic
  step pop_type_path c = pop_path c.type_path >>= λ up. ok (
    none,
    record c {
      type_path = up;
      dynamic_type_path = pop_dynamic (length c.type_path) c.dynamic_type_path;
    },
  )
  step (repeat zero f) c = ok (none, c)
  step (repeat (suc n) f) c = ok (none, record c { stack = field f ∷ repeat n f ∷ c.stack })
  step (field r) c =
      of_option dangling (get_elem? table r) >>= λ f. visit_field f c >>= λ (e, c'). ok (some e, c')

  -- Behind an instruction: an element ends the increment, and without one it goes on.
  abbrev pub after_step :
      (ResultIterator → Outcome ResultIterator)
      → ResultIterator
      → Option Element × Core
      → Outcome ResultIterator
  after_step again it (some e, c) =
      ok (record { core = c; next = some e; increments = add_u64 it.increments 1 })
  after_step again it (none, c) =
      again (record { core = c; next = it.next; increments = add_u64 it.increments 1 })

  -- With an empty stack the iterator is at its end.
  abbrev pub ended : Option Element → ResultIterator → ResultIterator
  ended none it = it
  ended (some e) it = record it { next = none; increments = add_u64 it.increments 1 }

  abbrev pub increment_on :
      (ResultIterator → Outcome ResultIterator)
      → ResultIterator
      → List Inst
      → Outcome ResultIterator
  increment_on again it [] = ok (ended it.next it)
  increment_on again it (i ∷ is) = step i (record it.core { stack = is }) >>= after_step again it

  -- `operator++`; fuel bounds how often it calls itself.
  unfoldable pub increment : ℕ → ResultIterator → Outcome ResultIterator
  unfolding step
  increment zero it = out_of_fuel
  increment (suc f) it = increment_on (increment f) it it.core.stack

  -- `cbegin()`, and `cend()` of the same segment.
  unfoldable pub cbegin : ℕ → List ℕ → Inst → Outcome ResultIterator
  unfolding increment
  cbegin f buf inst = increment f (record {
    core = record { bytes = buf; stack = inst ∷ []; type_path = []; dynamic_type_path = [] };
    next = none;
    increments = 0;
  })

  abbrev pub cend : ResultIterator
  cend = record {
    core = record { bytes = []; stack = []; type_path = []; dynamic_type_path = [] };
    next = none;
    increments = 0;
  }

  -- `operator==`; two positions in one segment are equal if as much is left behind them.
  unfoldable pub equal : ResultIterator → ResultIterator → Bool
  equal a b =
      if length a.core.bytes == length b.core.bytes
      then elim a.next [
        | none ↦ elim b.next [ none ↦ true | some e ↦ a.increments == b.increments ]
        | some e ↦ a.increments == b.increments
      ]
      else false

  -- One turn of such a loop, given whether the iterator is at the end; `operator*` asserts that
  -- there is an element.
  abbrev pub loop_turn :
      ℕ → (ResultIterator → Outcome (List Element)) → ResultIterator → Bool → Outcome (List Element)
  loop_turn f again it true = ok []
  loop_turn f again it false =
      of_option aborted it.next >>= λ e. increment f it >>= again >>= λ es. ok (e ∷ es)

  -- `for (auto it = begin; it != end; ++it)`: the elements that the loop sees, in `turns` turns.
  unfoldable pub elements : (f turns : ℕ) → ResultIterator → Outcome (List Element)
  unfolding equal increment
  elements f zero it = out_of_fuel
  elements f (suc turns) it = loop_turn f (elements f turns) it (equal it cend)
