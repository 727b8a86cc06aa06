-- ===== src/IdentifyContainers/Steps.antt =====
-- The single steps of a run: a lookup, a result that is stored, a node that is written, a new node.
use mathlib.Core.List.{Memᴰ}
use object_introspection.Prelude.{
  ◌≡◌, refl, sym, ◌∙◌, ap, subst, List, none, some, Bool-cases, inl, inr, ◌==◌, ◌⊎◌, eq_of_==,
}
use object_introspection.Types.{
  Ref, NodeId, ContainerInfo, Class, Container, Node, container, class_node, node_id,
}
use object_introspection.Store.{TypeGraph, deref, make_type, put}
use object_introspection.Store.Ids.{deref-make_type, get_elem?-snoc_cases}
use object_introspection.Tracker.{
  ResultTracker, get_result, set_result, get_result_id, set_result_id,
}
use object_introspection.Tracker.Marks.{get_or-grown}
use object_introspection.Tracker.Results.{cached, cached-set_result_id, get_result_id-cached}
use object_introspection.RemoveMembers.Edits.{deref-put_self, deref-put_other}
use object_introspection.Mutator.{Mutation, written}
use object_introspection.IdentifyContainers.{tracked}
use object_introspection.IdentifyContainers.Runs.{
  face, Run, IsReady, IsDone, AllIn, Keeps, IsIdentified-Keeps, walk_links,
}

abbrev pub with_tracker : ResultTracker Ref → Mutation → Mutation
with_tracker t s = record s { tracker = t }

cached-get_result :
    (n : Node) (t : ResultTracker Ref) (i : NodeId) → cached (get_result n t).1 i ≡ cached t i
unfolding get_result get_result_id
cached-get_result n t i = elim (node_id n) as (λ o. cached (get_result_id o t).1 i ≡ cached t i) [
  | none ↦ refl
  | some j ↦ get_or-grown none j t.results i
]

cached-set_result :
    (n : Node) (q : Ref) (t : ResultTracker Ref) (i : NodeId) (p : Ref)
    → cached (set_result n q t) i ≡ some p
    → (p ≡ q) ⊎ (cached t i ≡ some p)
unfolding set_result set_result_id
cached-set_result n q t i p =
    elim (node_id n)
      as (λ o. cached (set_result_id o q t) i ≡ some p → (p ≡ q) ⊎ (cached t i ≡ some p)) [
        | none ↦ λ e. inr e
        | some j ↦ λ e. elim (Bool-cases (i == j)) [
          | inl same ↦ let k = rw (cached-set_result_id j i q t, same) at e in inl (cc (k))
          | inr other ↦ let k = rw (cached-set_result_id j i q t, other) at e in inr k
        ]
      ]

-- A class keeps its name, and no other node becomes a class.
abbrev pub Rewrites : Node → Node → Type 0
Rewrites n n' =
    (c' : Class)
    → n' ≡ class_node c'
    → (c : Class) × (n ≡ class_node c) × (c.input_name ≡ c'.input_name)

Keeps-put :
    (g : TypeGraph) (r : Ref) (n n' : Node)
    → deref g r ≡ some n
    → Rewrites n n'
    → Keeps g (put r n' g)
Keeps-put g r n n' at rewrites x c' e = elim (Bool-cases (x == r)) [
  | inl same ↦
      let x_r : x ≡ r = eq_of_== x r same in
      let here = deref-put_self g r n' at in
      let n'_c : n' ≡ class_node c' = cc (here, e, x_r) in
      let (c, n_c, name) = rewrites c' n'_c in (c, ap (deref g) x_r ∙ at ∙ ap some n_c, name)
  | inr other ↦ (c', sym (deref-put_other g r n' x other) ∙ e, refl)
]

Keeps-make_type :
    (make : NodeId → Container) (g : TypeGraph) → Keeps g (make_type (λ i. container (make i)) g).1
unfolding make_type
Keeps-make_type make g x c' e =
    elim (get_elem?-snoc_cases g.nodes (container (make g.next_id)) x {v = class_node c'} e) [
      | inl old ↦ (c', old, refl)
      | inr (end, new) ↦ cc
    ]

module _ (infos : List ContainerInfo) where
  -- The tracker changes, and holds nothing that is not known.
  pub Run-tracker :
      (known : List Ref) (s : Mutation) (t : ResultTracker Ref)
      → IsReady infos known s
      → ((i : NodeId) (q : Ref) → cached t i ≡ some q → Memᴰ q known)
      → Run infos known s known (with_tracker t s)
  Run-tracker known s t ready h = record {
    more = λ x m. m;
    keeps = λ x c e. (c, e, refl);
    ready = record { tracked = h; identified = ready.identified };
    new_done = λ x m. inl m;
    lives = λ x n e. (n, e, refl);
    stays = λ x d. d;
  }

  pub Run-lookup :
      (known : List Ref) (s : Mutation) (n : Node)
      → IsReady infos known s
      → Run infos known s known (with_tracker (get_result n s.tracker).1 s)
  Run-lookup known s n ready =
      Run-tracker known s (get_result n s.tracker).1 ready
        (λ i q e. ready.tracked i q (sym (cached-get_result n s.tracker i) ∙ e))

  pub lookup-known :
      (known : List Ref) (s : Mutation) (n : Node) (q : Ref)
      → IsReady infos known s
      → (get_result n s.tracker).0 ≡ some q
      → Memᴰ q known
  unfolding get_result get_result_id
  lookup-known known s n q ready =
      elim (node_id n) as (λ o. (get_result_id o s.tracker).0 ≡ some q → Memᴰ q known) [
        | none ↦ λ e. cc
        | some i ↦ λ e. ready.tracked i q (sym (get_result_id-cached i s.tracker) ∙ e)
      ]

  pub Run-tracked :
      (known : List Ref) (s : Mutation) (n : Node) (q : Ref)
      → IsReady infos known s
      → Memᴰ q known
      → Run infos known s known (tracked n q s)
  Run-tracked known s n q ready m = Run-tracker known s (set_result n q s.tracker) ready (λ i p e.
      elim (cached-set_result n q s.tracker i p e) [
        | inl same ↦ subst (λ p. Memᴰ p known) (sym same) m
        | inr old ↦ ready.tracked i p old
      ])

  pub Run-written :
      (known : List Ref) (s : Mutation) (r : Ref) (n n' : Node)
      → IsReady infos known s
      → deref s.graph r ≡ some n
      → Rewrites n n'
      → face n ≡ face n'
      → AllIn known (walk_links n')
      → Run infos known s known (written r n' s)
  Run-written known s r n n' ready at rewrites faces all =
      let keeps = Keeps-put s.graph r n n' at rewrites in
      record {
        more = λ x m. m;
        keeps = keeps;
        ready = record {
          tracked = ready.tracked;
          identified = λ x m.
              IsIdentified-Keeps infos s.graph (put r n' s.graph) keeps x (ready.identified x m);
        };
        new_done = λ x m. inl m;
        lives = λ x k e. elim (Bool-cases (x == r)) [
          | inl same ↦
              let x_r = eq_of_== x r same in
              let k_n : k ≡ n = cc (at, e, x_r) in
              (
                n',
                ap (deref (put r n' s.graph)) x_r ∙ deref-put_self s.graph r n' at,
                sym faces ∙ ap face (sym k_n),
              )
          | inr other ↦ (k, deref-put_other s.graph r n' x other ∙ e, refl)
        ];
        stays = λ x (k, e, h). elim (Bool-cases (x == r)) [
          | inl same ↦ (
            n',
            ap (deref (put r n' s.graph)) (eq_of_== x r same) ∙ deref-put_self s.graph r n' at,
            all,
          )
          | inr other ↦ (k, deref-put_other s.graph r n' x other ∙ e, h)
        ];
      }

  pub IsDone-written :
      (known : List Ref) (s : Mutation) (r : Ref) (n n' : Node)
      → deref s.graph r ≡ some n
      → AllIn known (walk_links n')
      → IsDone known (written r n' s).graph r
  IsDone-written known s r n n' at all = (n', deref-put_self s.graph r n' at, all)

  -- A new node that is no class.
  pub Run-make_type :
      (known : List Ref) (s : Mutation) (make : NodeId → Container)
      → IsReady infos known s
      → Run infos known s known
          (record s { graph = (make_type (λ i. container (make i)) s.graph).1 })
  Run-make_type known s make ready =
      let g : TypeGraph = (make_type (λ i. container (make i)) s.graph).1 in
      let keeps = Keeps-make_type make s.graph in
      record {
        more = λ x m. m;
        keeps = keeps;
        ready = record {
          tracked = ready.tracked;
          identified = λ x m. IsIdentified-Keeps infos s.graph g keeps x (ready.identified x m);
        };
        new_done = λ x m. inl m;
        lives = λ x k e. (k, deref-make_type (λ i. container (make i)) s.graph x k e, refl);
        stays = λ x (k, e, h). (k, deref-make_type (λ i. container (make i)) s.graph x k e, h);
      }
