-- ===== src/NameGen.antt =====
-- oi/type_graph/NameGen.cpp: the names of the generated code, and the regenerateName() of
-- oi/type_graph/Types.h that it calls.
pub mod Texts
pub mod Numbers
pub mod Members
pub mod Labels
pub mod Runs
use object_introspection.Prelude.{
  ℕ, zero, suc, ◌+◌, List, [], ◌∷◌, Option, none, some, Bool, true, false, Outcome, ok, err,
  dangling, of_option, out_of_fuel, ◌>>=◌, for_each, String, ◌&◌, to_string, length, str_eq,
  if◌then◌else◌,
}
use object_introspection.Types.{
  Ref, Member, TemplateParam, Class, Container, Node, Incomplete, Underlying, named, known, Enum,
  Array, Typedef, Pointer, DummyAllocator, CaptureKeys, incomplete, class_node, container,
  primitive, stubbed_pointer, PrimitiveKind, get_name, enum_node, array, typedef, pointer,
  reference, dummy, dummy_allocator, capture_keys,
}
use object_introspection.Store.{TypeGraph, deref, put}
use object_introspection.Visitor.{
  contains, load_class, load_container, visit_class, accept_with, param_types,
}
use object_introspection.NameGen.Texts.{
  anon_prefix, remove_template_params, or_anonymous, deduplicate, replace_dots, sanitize,
}

-- `n` is an int, which stays below 2 ^ 31.
pub record Naming : Type 0 where
  pub visited : List Ref
  pub n : ℕ
  pub graph : TypeGraph

abbrev pub enter : Ref → Naming → Bool × Naming
enter r s = (contains s.visited r, record s { visited = r ∷ s.visited })

-- `name()`
unfoldable pub name_of : Node → Outcome String
unfolding get_name
name_of (incomplete t) = ok t.name
name_of (class_node t) = ok t.name
name_of (container t) = ok t.name
name_of (primitive k) = get_name k
name_of (enum_node t) = ok t.name
name_of (array t) = ok t.name
name_of (typedef t) = ok t.name
name_of (pointer t) = ok t.name
name_of (reference t) = ok t.name
name_of (dummy t) = ok t.name
name_of (dummy_allocator t) = ok t.name
name_of (capture_keys t) = ok t.name

unfoldable pub primitive_input_name : PrimitiveKind → Outcome String
unfolding get_name
primitive_input_name stubbed_pointer = ok "uintptr_t (stubbed)"
primitive_input_name k = get_name k

-- `inputName()`, which follows the references of an Incomplete and of a CaptureKeys.
unfoldable pub input_name_of : ℕ → TypeGraph → Node → Outcome String
unfolding primitive_input_name
input_name_of zero g n = out_of_fuel
input_name_of (suc f) g (incomplete t) = elim t.underlying_type [
  | named name ↦ ok name
  | known r ↦ of_option dangling (deref g r) >>= input_name_of f g
]
input_name_of (suc f) g (class_node t) = ok t.input_name
input_name_of (suc f) g (container t) = ok t.input_name
input_name_of (suc f) g (primitive k) = primitive_input_name k
input_name_of (suc f) g (enum_node t) = ok t.input_name
input_name_of (suc f) g (array t) = ok t.input_name
input_name_of (suc f) g (typedef t) = ok t.input_name
input_name_of (suc f) g (pointer t) = ok t.input_name
input_name_of (suc f) g (reference t) = ok t.input_name
input_name_of (suc f) g (dummy t) = ok t.input_name
input_name_of (suc f) g (dummy_allocator t) = ok t.input_name
input_name_of (suc f) g (capture_keys t) =
    of_option dangling (deref g t.underlying_type) >>= input_name_of f g

-- The two names of what a reference refers to. A chain of references visits a node once at most, so
-- one more than the number of nodes is fuel enough for a chain that ends.
unfoldable pub names_at : TypeGraph → Ref → Outcome (String × String)
unfolding name_of input_name_of
names_at g r = of_option dangling (deref g r) >>= λ n. name_of n >>= λ name.
    input_name_of (suc (length g.nodes)) g n >>= λ input_name. ok (name, input_name)

-- The body of the loop over the members.
unfoldable pub name_member : ℕ → Member → Member
unfolding replace_dots
name_member i m =
    let name = or_anonymous m.name & "_" & to_string i in
    record m {
      name = replace_dots name;
      input_name = if str_eq m.input_name "" then name else m.input_name;
    }

unfoldable pub name_members : ℕ → List Member → List Member
unfolding name_member
name_members i [] = []
name_members i (m ∷ ms) = name_member i m ∷ name_members (i + 1) ms

unfoldable pub named_class : ℕ → Class → Class
unfolding remove_template_params deduplicate name_members
named_class n c =
    let name = deduplicate n (remove_template_params c.name) in
    record c {
      input_name = if str_eq c.name "" then name else c.input_name;
      name = name;
      members = name_members 0 c.members;
    }

unfoldable pub named_enum : ℕ → Enum → Enum
unfolding deduplicate
named_enum n e =
    let name = deduplicate n e.name in
    record e { input_name = if str_eq e.name "" then name else e.input_name; name = name }

unfoldable pub named_typedef : ℕ → Typedef → Typedef
unfolding remove_template_params deduplicate
named_typedef n t = record t { name = deduplicate n (remove_template_params t.name) }

-- The loop over the parameters: `first`, and the two names so far.
unfoldable pub add_params :
    TypeGraph → Bool → List TemplateParam → String × String → Outcome (String × String)
unfolding names_at
add_params g first [] names = ok names
add_params g first (p ∷ ps) (name, input_name) =
    let comma = if first then "" else ", " in
    let const = if p.qualifiers.const then " const" else "" in
    elim p.value [
      | some v ↦ add_params g false ps (name & comma & v, input_name & comma & v)
      | none ↦ names_at g p.type >>= λ (n, i).
          add_params g false ps (name & comma & n & const, input_name & comma & i & const)
    ]

unfoldable pub named_container : TypeGraph → Container → Outcome Container
unfolding remove_template_params add_params
named_container g c =
    add_params g true c.template_params
      (remove_template_params c.name & "<", remove_template_params c.input_name & "<")
    >>= λ (name, input_name). ok (record c { name = name & ">"; input_name = input_name & ">" })

unfoldable pub named_array : TypeGraph → Array → Outcome Array
unfolding names_at
named_array g a = names_at g a.element_type >>= λ (name, input_name). ok (record a {
  name = "OIArray<" & name & ", " & to_string a.len & ">";
  input_name = input_name & "[" & to_string a.len & "]";
})

-- A Pointer, with "*", and a Reference, with "&", whose generated name is that of a pointer.
unfoldable pub named_pointer : String → TypeGraph → Pointer → Outcome Pointer
unfolding names_at
named_pointer mark g p = names_at g p.pointee_type >>= λ (name, input_name).
    ok (record p { name = name & "*"; input_name = input_name & mark })

-- `name()` alone.
unfoldable pub name_at : TypeGraph → Ref → Outcome String
unfolding name_of
name_at g r = of_option dangling (deref g r) >>= name_of

unfoldable pub named_allocator : TypeGraph → DummyAllocator → Outcome DummyAllocator
unfolding name_at
named_allocator g d = name_at g d.type >>= λ name. ok (record d {
  name =
      "DummyAllocator<"
      & name
      & ", "
      & to_string d.size
      & ", "
      & to_string d.align
      & ", "
      & to_string d.id
      & ">";
})

unfoldable pub named_capture : TypeGraph → CaptureKeys → Outcome CaptureKeys
unfolding name_at
named_capture g c =
    name_at g c.underlying_type >>= λ name. ok (record c { name = "OICaptureKeys<" & name & ">" })

unfoldable pub named_incomplete : TypeGraph → Incomplete → Outcome Incomplete
unfolding input_name_of sanitize
named_incomplete g t = input_name_of (suc (length g.nodes)) g (incomplete t) >>= λ input_name.
    ok (record t { name = "Incomplete<struct " & sanitize input_name & ">" })

abbrev pub write : Ref → Node → Naming → Naming
write r n s = record s { graph = put r n s.graph }

unfoldable pub visit_node : (Ref → Naming → Outcome Naming) → Ref → Node → Naming → Outcome Naming
unfolding visit_class named_class named_enum named_typedef named_container named_array named_pointer
    named_allocator named_capture named_incomplete
visit_node accept r (class_node c) s =
    visit_class accept (named_class s.n c)
      (record s { n = s.n + 1; graph = put r (class_node (named_class s.n c)) s.graph })
visit_node accept r (container c) s = elim c.template_params [
  | [] ↦ ok s
  | _ ∷ _ ↦ for_each accept (param_types c.template_params) s >>= λ s'.
      load_container s'.graph r >>= λ c'.
      named_container s'.graph c' >>= λ c''. ok (write r (container c'') s')
]
visit_node accept r (enum_node e) s =
    ok (record s { n = s.n + 1; graph = put r (enum_node (named_enum s.n e)) s.graph })
visit_node accept r (array a) s =
    accept a.element_type s >>= λ s'. named_array s'.graph a >>= λ a'. ok (write r (array a') s')
visit_node accept r (typedef t) s =
    accept t.underlying_type
      (record s { n = s.n + 1; graph = put r (typedef (named_typedef s.n t)) s.graph })
visit_node accept r (pointer p) s = accept p.pointee_type s >>= λ s'.
    named_pointer "*" s'.graph p >>= λ p'. ok (write r (pointer p') s')
visit_node accept r (reference p) s = accept p.pointee_type s >>= λ s'.
    named_pointer "&" s'.graph p >>= λ p'. ok (write r (reference p') s')
visit_node accept r (dummy_allocator d) s = accept d.type s >>= λ s'.
    named_allocator s'.graph d >>= λ d'. ok (write r (dummy_allocator d') s')
visit_node accept r (capture_keys c) s = accept c.underlying_type s >>= λ s'.
    named_capture s'.graph c >>= λ c'. ok (write r (capture_keys c') s')
visit_node accept r (incomplete t) s =
    named_incomplete s.graph t >>= λ t'. ok (write r (incomplete t') s)
visit_node accept r (primitive k) s = ok s
visit_node accept r (dummy t) s = ok s

unfoldable pub visit : (Ref → Naming → Outcome Naming) → Ref → Naming → Outcome Naming
unfolding visit_node
visit accept r s = of_option dangling (deref s.graph r) >>= λ n. visit_node accept r n s

-- `generateNames` on the root types.
unfoldable pub generate_names : ℕ → TypeGraph → Outcome Naming
unfolding visit accept_with
generate_names fuel g =
    for_each (accept_with enter visit fuel) g.root_types (record { visited = []; n = 0; graph = g })
