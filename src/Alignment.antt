-- ===== src/Alignment.antt =====
-- oi/type_graph/AlignmentCalc.cpp: the alignment of each class, and which classes are packed.
pub mod Classes
pub mod Unpacked
use object_introspection.Prelude.{
  ℕ, ◌+◌, ◌/◌, ◌%◌, max, List, [], ◌∷◌, Option, none, some, Bool, true, false, not, ◌&&◌, ◌||◌,
  Outcome, ok, err, dangling, of_option, ◌>>=◌, for_each, if◌then◌else◌, ◌==◌,
}
use object_introspection.Types.{Ref, Member, Class, Container, Node, class_node, container}
use object_introspection.Store.{TypeGraph, deref, put}
use object_introspection.Layout.{align_of}
use object_introspection.Visitor.{
  Walk, enter, load_class, load_container, visit_class, visit_container, visit_default, accept_with,
}

-- The loop variables of `visit(Class&)`.
pub record Scan : Type 0 where
  pub walk : Walk
  pub alignment : ℕ
  pub packed : Bool

-- `member.align != 0 && (member.bitOffset / 8) % member.align != 0`.
abbrev pub is_misaligned : Member → Bool
is_misaligned m = not (m.align == 0) && not (m.bit_offset / 8 % m.align == 0)

-- `if (c.align() == 1 || c.size() % c.align() != 0) c.setPacked();`
unfoldable pub pack_tail : Class → Class
pack_tail c = if c.align == 1 || not (c.size % c.align == 0) then record c { packed = true } else c

module _ (depth : ℕ) where
  -- The alignment of a member without an explicit one is that of its type.
  unfoldable pub resolve : (Ref → Walk → Outcome Walk) → Member → Walk → Outcome (Member × Walk)
  resolve accept m s =
      let by_type = accept m.type s >>= λ s'.
      align_of depth s'.graph m.type >>= λ a. ok (record m { align = a }, s') in
      if m.align == 0 then by_type else ok (m, s)

  -- The loop over the members.
  unfoldable pub scan_members :
      (Ref → Walk → Outcome Walk) → List Member → Scan → Outcome (List Member × Scan)
  scan_members accept [] s = ok ([], s)
  scan_members accept (m ∷ ms) s = resolve accept m s.walk >>= λ (m', walk).
      scan_members accept ms (record {
        walk = walk;
        alignment = max s.alignment m'.align;
        packed = s.packed || is_misaligned m';
      })
      >>= λ (ms', s'). ok (m' ∷ ms', s')

  -- `if (c.align() == 0) { ... }`.
  unfoldable pub align_members : (Ref → Walk → Outcome Walk) → Class → Walk → Outcome (Class × Walk)
  unfolding scan_members resolve
  align_members accept c s =
      let scanned =
        scan_members accept c.members (record { walk = s; alignment = 1; packed = c.packed })
        >>= λ (ms, t).
            ok (record c { members = ms; align = t.alignment; packed = t.packed }, t.walk) in
      if c.align == 0 then scanned else ok (c, s)

  -- The part of `visit(Class&)` behind the recursion.
  unfoldable pub align_class : (Ref → Walk → Outcome Walk) → Ref → Walk → Outcome Walk
  unfolding align_members pack_tail
  align_class accept r s = do
    c ← load_class s.graph r
    (c', s') ← align_members accept c s
    ok (record s' { graph = put r (class_node (pack_tail c')) s'.graph })

  -- The part of `visit(Container&)` behind the recursion.
  unfoldable pub align_container : Ref → Walk → Outcome Walk
  align_container r s = load_container s.graph r >>= λ c. elim c.underlying [
    | none ↦ ok s
    | some u ↦ align_of depth s.graph u >>= λ a.
        ok (record s { graph = put r (container (record c { align = a })) s.graph })
  ]

  unfoldable pub visit_node : (Ref → Walk → Outcome Walk) → Ref → Node → Walk → Outcome Walk
  unfolding align_class align_container visit_default
  visit_node accept r (class_node c) s = visit_class accept c s >>= align_class accept r
  visit_node accept r (container c) s = visit_container accept c s >>= align_container r
  visit_node accept r n s = visit_default accept n s

  unfoldable pub visit : (Ref → Walk → Outcome Walk) → Ref → Walk → Outcome Walk
  unfolding visit_node
  visit accept r s = of_option dangling (deref s.graph r) >>= λ n. visit_node accept r n s

  -- `calculateAlignments` on the root types.
  unfoldable pub calculate_alignments : ℕ → TypeGraph → Outcome Walk
  unfolding visit accept_with
  calculate_alignments fuel g =
      for_each (accept_with enter visit fuel) g.root_types (record { visited = []; graph = g })
