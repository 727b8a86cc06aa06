-- ===== src/KeyCapture.antt =====
-- oi/type_graph/KeyCapture.cpp: a CaptureKeys node above the containers whose keys are captured.
pub mod Marks
use object_introspection.Prelude.{
  ℕ, List, [], ◌∷◌, ◌++◌, Option, none, some, Bool, true, false, Outcome, ok, dangling, of_option,
  ◌>>=◌, for_each, String, ◌&◌, str_eq, if◌then◌else◌,
}
use object_introspection.Types.{
  Ref, Member, Class, ContainerInfo, Container, Node, CaptureKeys, class_node, container,
  capture_keys,
}
use object_introspection.Store.{TypeGraph, deref, put, make_leaf}
use object_introspection.Layout.{strip_typedefs}
use object_introspection.Tracker.{NodeTracker}
use object_introspection.Tracker
use object_introspection.NameGen.{name_at}
use object_introspection.Visitor.{visit_class, visit_default, accept_with}

-- OICodeGen::Config::KeyToCapture
pub record KeyToCapture : Type 0 where
  pub type : Option String
  pub member : Option String
  pub top_level : Bool

-- `infos` is what the pass puts behind `containerInfos_`.
pub record Capturing : Type 0 where
  pub tracker : NodeTracker
  pub graph : TypeGraph
  pub infos : List ContainerInfo

-- `if (tracker_.visit(type)) return;`
abbrev pub enter : Ref → Capturing → Bool × Capturing
enter r s = elim (deref s.graph r) [
  | none ↦ (false, s)
  | some n ↦ let (seen, t) = Tracker.visit n s.tracker in (seen, record s { tracker = t })
]

abbrev pub capturing_info : ContainerInfo → ContainerInfo
capturing_info info = record info { capture_keys = true }

-- `makeType<CaptureKeys>(type, *info)`, with the new info behind `containerInfos_`.
unfoldable pub make_capture : ContainerInfo → Ref → Capturing → Outcome (Ref × Capturing)
unfolding make_leaf name_at
make_capture info r s = name_at s.graph r >>= λ name.
    let node = capture_keys (record {
      underlying_type = r;
      container_info = info;
      name = "OICaptureKeys<" & name & ">";
    }) in
    let (ref, g) = make_leaf node s.graph in
    ok (ref, record s { graph = g; infos = s.infos ++ info ∷ [] })

-- `captureKey`, from the type behind the typedefs on.
unfoldable pub capture_node : Node → Ref → Capturing → Outcome (Ref × Capturing)
unfolding make_capture
capture_node (container c) r s = make_capture (capturing_info c.container_info) r s
capture_node n r s = ok (r, s)

-- `captureKey`; the fuel is that of `stripTypedefs`.
unfoldable pub capture_key : ℕ → Ref → Capturing → Outcome (Ref × Capturing)
unfolding capture_node strip_typedefs
capture_key f r s = strip_typedefs f s.graph r >>= λ t.
    of_option dangling (deref s.graph t) >>= λ n. capture_node n r s

-- `Member{captureKey(member.type()), member}`: the constructor leaves `align` at its default, 0.
abbrev pub captured : Ref → Member → Member
captured r m = record m { type = r; align = 0 }

-- The loop over the members, for one key.
unfoldable pub capture_members :
    ℕ → String → List Member → Capturing → Outcome (List Member × Capturing)
unfolding capture_key
capture_members f name [] s = ok ([], s)
capture_members f name (m ∷ ms) s =
    (if str_eq m.name name
      then (capture_key f m.type s >>= λ (r, s'). ok (captured r m, s'))
      else ok (m, s))
    >>= λ (m', s'). capture_members f name ms s' >>= λ (ms', s''). ok (m' ∷ ms', s'')

-- The loop over the keys to capture.
unfoldable pub capture_keys_of :
    ℕ → List KeyToCapture → Class → Capturing → Outcome (Class × Capturing)
unfolding capture_members
capture_keys_of f [] c s = ok (c, s)
capture_keys_of f (k ∷ ks) c s = elim k.type [
  | none ↦ capture_keys_of f ks c s
  | some type ↦ elim k.member [
    | none ↦ capture_keys_of f ks c s
    | some name ↦
        (if str_eq c.name type then capture_members f name c.members s else ok (c.members, s))
        >>= λ (ms, s'). capture_keys_of f ks (record c { members = ms }) s'
  ]
]

unfoldable pub visit_node :
    ℕ
    → List KeyToCapture
    → (Ref → Capturing → Outcome Capturing)
    → Ref
    → Node
    → Capturing
    → Outcome Capturing
unfolding capture_keys_of visit_class visit_default
visit_node f keys accept r (class_node c) s = capture_keys_of f keys c s >>= λ (c', s').
    visit_class accept c' (record s' { graph = put r (class_node c') s'.graph })
visit_node f keys accept r n s = visit_default accept n s

unfoldable pub visit :
    ℕ
    → List KeyToCapture
    → (Ref → Capturing → Outcome Capturing)
    → Ref
    → Capturing
    → Outcome Capturing
unfolding visit_node
visit f keys accept r s =
    of_option dangling (deref s.graph r) >>= λ n. visit_node f keys accept r n s

-- The keys of all root types.
unfoldable pub capture_roots : ℕ → List Ref → Capturing → Outcome (List Ref × Capturing)
unfolding capture_key
capture_roots f [] s = ok ([], s)
capture_roots f (r ∷ rs) s =
    capture_key f r s >>= λ (r', s'). capture_roots f rs s' >>= λ (rs', s''). ok (r' ∷ rs', s'')

abbrev pub any_top_level : List KeyToCapture → Bool
any_top_level [] = false
any_top_level (k ∷ ks) = if k.top_level then true else any_top_level ks

abbrev pub with_roots : List Ref × Capturing → Capturing
with_roots (rs, s) = record s { graph = record s.graph { root_types = rs } }

-- `insertCaptureDataNodes` on the root types.
unfoldable pub insert_capture_data_nodes : ℕ → List KeyToCapture → Capturing → Outcome Capturing
unfolding capture_roots visit accept_with
insert_capture_data_nodes f keys s =
    (if any_top_level keys
      then (capture_roots f s.graph.root_types s >>= λ p. ok (with_roots p))
      else ok s)
    >>= λ s'. for_each (accept_with enter (visit f keys) f) s'.graph.root_types s'
