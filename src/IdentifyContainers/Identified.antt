-- ===== src/IdentifyContainers/Identified.antt =====
-- The whole pass: what the result refers to is no class that is to be replaced.
use mathlib.Core.List.{Memᴰ}
use object_introspection.Prelude.{
  ℕ, ◌≡◌, refl, subst, sym, ◌∙◌, ap, List, [], ◌∷◌, none, some, Option, true, false, ok,
  ok-injective, >>=-eq-ok, inl, inr, map, if◌then◌else◌, ltb,
}
use object_introspection.Types.{Ref, ContainerInfo, Node}
use object_introspection.Store.{TypeGraph, deref, size}
use object_introspection.Tracker.{resized}
use object_introspection.Tracker.Marks.{get_or-resized}
use object_introspection.Visitor.Links.{All-Memᴰ}
use object_introspection.Mutator.{Mutation, mutate_each}
use object_introspection.IdentifyContainers.{mutate, identify_containers}
use object_introspection.IdentifyContainers.Runs.{IsReady, IsIdentified, IsDone, AllIn, walk_links}
use object_introspection.IdentifyContainers.Nodes.{each-Leads}
use object_introspection.IdentifyContainers.Lookups.{mutate-Learns}

-- The roots and what the later passes find from them, without what is below a container.
pub data Reaches (g : TypeGraph) : Ref → Type 0 where
  root : {r : Ref} → Memᴰ r g.root_types → Reaches g r
  link :
      {r x : Ref} {n : Node}
      → Reaches g r
      → deref g r ≡ some n
      → Memᴰ x (walk_links n)
      → Reaches g x

map_id : (xs : List Ref) → map (λ r. r) xs ≡ xs
map_id [] = refl
map_id (x ∷ xs) = ap (λ ys. x ∷ ys) (map_id xs)

-- A new tracker holds nothing.
pub fresh-IsReady :
    (infos : List ContainerInfo) (n : ℕ) (g : TypeGraph)
    → IsReady infos [] (record { tracker = record { results = resized none n [] }; graph = g })
fresh-IsReady infos n g = record {
  tracked = λ i q e.
      elim (ltb i n)
          as (λ b. ◌≡◌ {A = Option Ref} (if b then none else none) (some q) → Memᴰ q []) [
            | true ↦ λ k. cc
            | false ↦ λ k. cc
          ]
        (sym (get_or-resized none n [] i) ∙ e);
  identified = λ x m. elim m [ ];
}

module _ (infos : List ContainerInfo) where
  -- Where all known types are done, so is what the known types reach.
  known-Reaches :
      (known : List Ref) (g : TypeGraph)
      → AllIn known g.root_types
      → ((x : Ref) → Memᴰ x known → IsDone known g x)
      → (r : Ref) → Reaches g r
      → Memᴰ r known
  known-Reaches known g roots done r (root m) = All-Memᴰ (λ x. Memᴰ x known) g.root_types roots r m
  known-Reaches known g roots done x (link {r = r} {n = n} path at m) =
      let (k, at', all) = done r (known-Reaches known g roots done r path) in
      let same : k ≡ n = cc (at, at') in
      All-Memᴰ (λ x. Memᴰ x known) (walk_links n) (subst (λ n. AllIn known (walk_links n)) same all)
        x m

  ends :
      (known : List Ref) (s' : Mutation)
      → ((x : Ref) → Memᴰ x known → IsIdentified infos s'.graph x)
      → ((x : Ref) → Memᴰ x known → IsDone known s'.graph x)
      → (roots : List Ref) → AllIn known roots
      → (r : Ref) → Reaches (record s'.graph { root_types = roots }) r
      → IsIdentified infos s'.graph r × (n : Node) × (deref s'.graph r ≡ some n)
  ends known s' identified done roots all r path =
      let m = known-Reaches known (record s'.graph { root_types = roots }) all done r path in
      let (n, at, _) = done r m in (identified r m, n, at)

  -- Where the pass returns, every type that the result reaches is there, and is no class that a
  -- description of a container matches: such classes are left below their containers only.
  pub identify_containers-IsIdentified :
      (fuel : ℕ) (g g' : TypeGraph)
      → identify_containers infos fuel g ≡ ok g'
      → (r : Ref) → Reaches g' r
      → IsIdentified infos g' r × (n : Node) × (deref g' r ≡ some n)
  unfolding identify_containers
  identify_containers-IsIdentified fuel g g' h r path =
      let s : Mutation = record {
        tracker = record { results = resized none (size g) [] };
        graph = g;
      } in
      let ((roots, s'), e, h₁) =
        >>=-eq-ok (mutate_each (mutate infos fuel) (λ r. r) (λ _ t. t) g.root_types s) _ h in
      let (known, run, all) =
        each-Leads infos (mutate infos fuel) (mutate-Learns infos fuel) (λ r. r) (λ _ t. t)
          (λ x t. refl) g.root_types s roots s' [] e (fresh-IsReady infos (size g) g) in
      subst
        (λ g'.
          (r : Ref) → Reaches g' r → IsIdentified infos g' r × (n : Node) × (deref g' r ≡ some n))
        (ok-injective h₁)
        (ends known s' run.ready.identified
          (λ x m. elim (run.new_done x m) [ inl old ↦ elim old [ ] | inr done ↦ done ]) roots
          (subst (AllIn known) (map_id roots) all))
        r path
