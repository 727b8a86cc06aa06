-- ===== src/RemoveMembers/Clean.antt =====
-- The whole pass: it ends, and every type that the result has is clean.
use object_introspection.Prelude.{
  ℕ, zero, suc, ◌≡◌, refl, ◌∙◌, ap, subst, List, [], ◌∷◌, some, false, All, All-map, arith,
  Bool-cases, inl, inr, ◌≤◌, ◌<◌, length, String, get_elem?, Outcome, ok, for_each, ◌>>=◌,
}
use object_introspection.Types.{
  Ref, Class, Node, incomplete, class_node, container, primitive, enum_node, array, typedef,
  pointer, reference, dummy, dummy_allocator, capture_keys,
}
use object_introspection.Store.{TypeGraph, deref}
use object_introspection.Visitor.{Walk, enter, contains, visit_default, accept_with}
use object_introspection.Visitor.Links.{
  class_links, links, All-Memᴰ, Reachable, root, link, visit_class-links, visit_default-links,
}
use object_introspection.Visitor.Unseen.{unseen, unseen-le, unseen-lt, unseen-bound}
use object_introspection.RemoveMembers.{clear_union, visit_node, visit, remove_members}
use object_introspection.RemoveMembers.Walks.{
  Seen, Bounded, IsClean, Done, Grows, Grows-self, Grows-trans, Grows-again, Grows-enter,
}
use object_introspection.RemoveMembers.Edits.{
  started, finished, Bounded-started, deref-put_self, length-put, Grows-class,
}

-- How many nodes of its graph a walk has not visited.
abbrev left : Walk → ℕ
left s = unseen (length s.graph.nodes) s.visited

abbrev Inside : Walk → Ref → Type 0
Inside s x = x < length s.graph.nodes

get_elem?-lt :
    {A : Type 0} (xs : List A) (i : ℕ) → i < length xs → (v : A) × (get_elem? xs i ≡ some v)
get_elem?-lt [] i h = elim h [ ]
get_elem?-lt (x ∷ xs) zero h = (x, refl)
get_elem?-lt (x ∷ xs) (suc i) h = get_elem?-lt xs i (omega arith)

module _ (ignored : List (String × String)) where
  -- A run of the pass on nodes returns, and has visited them.
  abbrev Runs : Walk → Outcome Walk → List Ref → Type 0
  Runs s o xs = (s' : Walk) × (o ≡ ok s') × Grows ignored s s' × All (Seen s') xs

  -- `accept` runs on all nodes of graphs with fewer than `n` nodes to visit.
  abbrev RunsBelow : ℕ → (Ref → Walk → Outcome Walk) → Type 0
  RunsBelow n accept =
      (r : Ref) (s : Walk)
      → Bounded s.graph
      → Inside s r
      → left s < n
      → Runs s (accept r s) (r ∷ [])

  left-Grows : (s s' : Walk) → Grows ignored s s' → left s' ≤ left s
  left-Grows s s' g = rw g.count (unseen-le s.visited s'.visited g.more (length s.graph.nodes))

  for_each-Runs :
      (n : ℕ) (accept : Ref → Walk → Outcome Walk)
      → RunsBelow n accept
      → (xs : List Ref) (s : Walk) → Bounded s.graph
      → All (Inside s) xs
      → left s < n
      → Runs s (for_each accept xs s) xs
  for_each-Runs n accept runs [] s b h few = (s, refl, Grows-self ignored s, tt)
  for_each-Runs n accept runs (x ∷ xs) s b h few =
      let (t, e, g, seen) = runs x s b h.0 few in
      let (u, e', g', all) =
        for_each-Runs n accept runs xs t (g.bounded b) (All-map (λ y lt. rw g.count lt) xs h.1)
          (let le = left-Grows s t g in omega arith) in
      (
        u,
        ap (λ o. o >>= for_each accept xs) e ∙ e',
        Grows-trans ignored s t u g g',
        (g'.more x seen.0, all),
      )

  module _ (n : ℕ) (accept : Ref → Walk → Outcome Walk) (runs : RunsBelow n accept) where
    default-Runs :
        (r : Ref) (s : Walk) (k : Node)
        → contains s.visited r ≡ false
        → deref s.graph r ≡ some k
        → ((g : _) → IsClean ignored g k)
        → Bounded s.graph
        → left (enter r s).1 < n
        → Runs s (visit_default accept k (enter r s).1) (r ∷ [])
    default-Runs r s k new at clean b few =
        let (t, e, g, all) = for_each-Runs n accept runs (links k) (enter r s).1 b (b r k at) few in
        let on : Seen (enter r s).1 r = ground arith in
        (
          t,
          visit_default-links accept k (enter r s).1 ∙ e,
          Grows-enter ignored r s t g (k, g.same r on ∙ at, clean t.graph, all),
          (g.more r on, tt),
        )

    class-Runs :
        (r : Ref) (s : Walk) (c : Class)
        → contains s.visited r ≡ false
        → deref s.graph r ≡ some (class_node c)
        → Bounded s.graph
        → left (enter r s).1 < n
        → Runs s (visit_node ignored accept r (class_node c) (enter r s).1) (r ∷ [])
    unfolding visit_node
    class-Runs r s c new at b few =
        let b₁ = Bounded-started r s c at b in
        let at₁ = deref-put_self s.graph r (class_node (clear_union c)) at in
        let few₁ : left (started r s c) < n =
          rw (length-put s.graph r (class_node (clear_union c))) few in
        let (s₂, e, g, all) =
          for_each-Runs n accept runs (class_links (clear_union c)) (started r s c) b₁
            (b₁ r (class_node (clear_union c)) at₁) few₁ in
        let on : Seen (started r s c) r = ground arith in
        let at₂ : deref s₂.graph r ≡ some (class_node (clear_union c)) = g.same r on ∙ at₁ in
        (
          finished ignored r s c s₂,
          rw (visit_class-links accept (clear_union c) (started r s c) ∙ e, at₂, visit_node) refl,
          Grows-class ignored r s c s₂ new at g all,
          (g.more r on, tt),
        )

    node-Runs :
        (r : Ref) (s : Walk) (k : Node)
        → contains s.visited r ≡ false
        → deref s.graph r ≡ some k
        → Bounded s.graph
        → left (enter r s).1 < n
        → Runs s (visit_node ignored accept r k (enter r s).1) (r ∷ [])
    unfolding visit_node
    node-Runs r s (class_node c) new at b few = class-Runs r s c new at b few
    node-Runs r s (incomplete t) new at b few =
        default-Runs r s (incomplete t) new at (λ g. tt) b few
    node-Runs r s (container t) new at b few = default-Runs r s (container t) new at (λ g. tt) b few
    node-Runs r s (primitive t) new at b few = default-Runs r s (primitive t) new at (λ g. tt) b few
    node-Runs r s (enum_node t) new at b few = default-Runs r s (enum_node t) new at (λ g. tt) b few
    node-Runs r s (array t) new at b few = default-Runs r s (array t) new at (λ g. tt) b few
    node-Runs r s (typedef t) new at b few = default-Runs r s (typedef t) new at (λ g. tt) b few
    node-Runs r s (pointer t) new at b few = default-Runs r s (pointer t) new at (λ g. tt) b few
    node-Runs r s (reference t) new at b few = default-Runs r s (reference t) new at (λ g. tt) b few
    node-Runs r s (dummy t) new at b few = default-Runs r s (dummy t) new at (λ g. tt) b few
    node-Runs r s (dummy_allocator t) new at b few =
        default-Runs r s (dummy_allocator t) new at (λ g. tt) b few
    node-Runs r s (capture_keys t) new at b few =
        default-Runs r s (capture_keys t) new at (λ g. tt) b few

    visit-Runs :
        (r : Ref) (s : Walk)
        → contains s.visited r ≡ false
        → Inside s r
        → Bounded s.graph
        → left (enter r s).1 < n
        → Runs s (visit ignored accept r (enter r s).1) (r ∷ [])
    unfolding visit
    visit-Runs r s new inside b few =
        let (k, at) = get_elem?-lt s.graph.nodes r inside in
        let (s', e, p, seen) = node-Runs r s k new at b few in (s', rw at e, p, seen)

  accept-Runs : (n : ℕ) → RunsBelow n (accept_with enter (visit ignored) n)
  unfolding accept_with
  accept-Runs zero r s b inside few = absurd (ground arith)
  accept-Runs (suc n) r s b inside few = elim (Bool-cases (contains s.visited r)) [
    | inl seen ↦ rw seen ((enter r s).1, refl, Grows-again ignored r s seen, (ground arith, tt))
    | inr new ↦
        let lt = unseen-lt s.visited r new (length s.graph.nodes) inside in
        let (s', e, p, seen) =
          visit-Runs n (accept_with enter (visit ignored) n) (accept-Runs n) r s new inside b
            (omega arith) in
        (s', rw new e, p, seen)
  ]

  Reachable-Done :
      (s : Walk)
      → All (Seen s) s.graph.root_types
      → ((x : Ref) → Seen s x → Done ignored s x)
      → (x : Ref) → Reachable s.graph x
      → Done ignored s x
  Reachable-Done s roots done x (root m) = done x (All-Memᴰ (Seen s) s.graph.root_types roots x m)
  Reachable-Done s roots done x (link {r = r} {n = n} h at m) =
      let (k, e, _, seen) = Reachable-Done s roots done r h in
      let same : k ≡ n = cc (e, at) in
      done x (All-Memᴰ (Seen s) (links n) (subst (λ k. All (Seen s) (links k)) same seen) x m)

-- The pass ends on a graph whose nodes and roots refer to its nodes only. In the graph that it gives,
-- no class that can be reached from a root has a member that is ignored or of an incomplete type, and
-- no union has a member.
pub remove_members-Clean :
    (ignored : List (String × String)) (fuel : ℕ) (g : TypeGraph)
    → Bounded g
    → All (λ r. r < length g.nodes) g.root_types
    → length g.nodes < fuel
    → (s : Walk) × (remove_members ignored fuel g ≡ ok s)
      × ((x : Ref)
          → Reachable s.graph x
          → (n : Node) × (deref s.graph x ≡ some n) × IsClean ignored s.graph n)
unfolding remove_members
remove_members-Clean ignored fuel g b inside few =
    let bound = unseen-bound (length g.nodes) [] in
    let (s, e, p, all) =
      for_each-Runs ignored fuel _ (accept-Runs ignored fuel) g.root_types
        (record { visited = []; graph = g }) b inside (omega arith) in
    (
      s,
      e,
      λ x h.
          let (n, at, clean, _) =
            Reachable-Done ignored s (rw p.roots all)
              (λ y seen. elim (p.done y seen) [ inl none_seen ↦ cc | inr d ↦ d ]) x h in
          (n, at, clean),
    )
