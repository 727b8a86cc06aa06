-- ===== src/IdentifyContainers/Runs.antt =====
-- What a run of the pass does to the types that are known to be done, a list that only the proofs have.
use mathlib.Core.List.{Memᴰ}
use object_introspection.Prelude.{
  ℕ, Option, ◌≡◌, ◌⊎◌, inl, inr, ◌∙◌, sym, ap, subst, refl, List, ◌∷◌, none, some, All, All-map,
}
use object_introspection.Types.{Ref, NodeId, ContainerInfo, Class, Node, container, class_node}
use object_introspection.Store.{TypeGraph, deref}
use object_introspection.Tracker.Results.{cached}
use object_introspection.Visitor.{param_types}
use object_introspection.Visitor.Links.{links}
use object_introspection.Mutator.{Mutation}
use object_introspection.IdentifyContainers.{find_info}

-- The references that the pass follows: the class below a container is left as it is.
abbrev pub walk_links : Node → List Ref
walk_links n = elim n [ container c ↦ param_types c.template_params | other ↦ links other ]

abbrev pub AllIn : List Ref → List Ref → Type 0
AllIn known xs = All (λ x. Memᴰ x known) xs

pub AllIn-more :
    (known known' : List Ref)
    → ((x : Ref) → Memᴰ x known → Memᴰ x known')
    → (xs : List Ref) → AllIn known xs
    → AllIn known' xs
AllIn-more known known' more xs h = All-map more xs h

-- Every class was there before, with its name.
abbrev pub Keeps : TypeGraph → TypeGraph → Type 0
Keeps g g' =
    (x : Ref) (c' : Class)
    → deref g' x ≡ some (class_node c')
    → (c : Class) × (deref g x ≡ some (class_node c)) × (c.input_name ≡ c'.input_name)

-- The description, what is below, and the size of a container.
abbrev pub face : Node → Option (ContainerInfo × Option Ref × ℕ)
face n = elim n [ container c ↦ some (c.container_info, c.underlying, c.size) | _ ↦ none ]

-- There is a node, with that face.
abbrev pub HasFace : TypeGraph → Ref → Option (ContainerInfo × Option Ref × ℕ) → Type 0
HasFace g x f = (n : Node) × (deref g x ≡ some n) × (face n ≡ f)

-- All that the type refers to is known.
abbrev pub IsDone : List Ref → TypeGraph → Ref → Type 0
IsDone known g x = (n : Node) × (deref g x ≡ some n) × AllIn known (walk_links n)

module _ (infos : List ContainerInfo) where
  -- Not a class that a description matches.
  abbrev pub IsIdentified : TypeGraph → Ref → Type 0
  IsIdentified g x =
      (c : Class) → deref g x ≡ some (class_node c) → find_info infos c.input_name ≡ none

  -- What the tracker holds is known, and nothing that is known is to be replaced.
  pub record IsReady (known : List Ref) (s : Mutation) : Type 0 where
    pub tracked : (i : NodeId) (q : Ref) → cached s.tracker i ≡ some q → Memᴰ q known
    pub identified : (x : Ref) → Memᴰ x known → IsIdentified s.graph x

  pub record Run (known : List Ref) (s : Mutation) (known' : List Ref) (s' : Mutation)
      : Type 0 where
    pub more : (x : Ref) → Memᴰ x known → Memᴰ x known'
    pub keeps : Keeps s.graph s'.graph
    pub ready : IsReady known' s'
    pub new_done : (x : Ref) → Memᴰ x known' → Memᴰ x known ⊎ IsDone known' s'.graph x
    pub lives : (x : Ref) (n : Node) → deref s.graph x ≡ some n → HasFace s'.graph x (face n)
    pub stays : (x : Ref) → IsDone known s.graph x → IsDone known' s'.graph x

  pub IsIdentified-Keeps :
      (g g' : TypeGraph) → Keeps g g' → (x : Ref) → IsIdentified g x → IsIdentified g' x
  IsIdentified-Keeps g g' keeps x h c' e =
      let (c, at, same) = keeps x c' e in ap (find_info infos) (sym same) ∙ h c at

  pub Run-self : (known : List Ref) (s : Mutation) → IsReady known s → Run known s known s
  Run-self known s ready = record {
    more = λ x m. m;
    keeps = λ x c e. (c, e, refl);
    ready = ready;
    new_done = λ x m. inl m;
    lives = λ x n e. (n, e, refl);
    stays = λ x d. d;
  }

  pub Run-trans :
      (k k' k'' : List Ref) (s s' s'' : Mutation)
      → Run k s k' s'
      → Run k' s' k'' s''
      → Run k s k'' s''
  Run-trans k k' k'' s s' s'' a b = record {
    more = λ x m. b.more x (a.more x m);
    keeps = λ x c'' e.
        let (c', e', same') = b.keeps x c'' e in
        let (c, e'', same) = a.keeps x c' e' in (c, e'', same ∙ same');
    ready = b.ready;
    new_done = λ x m. elim (b.new_done x m) [
      | inr d ↦ inr d
      | inl m' ↦ elim (a.new_done x m') [ inl old ↦ inl old | inr d ↦ inr (b.stays x d) ]
    ];
    lives = λ x n e.
        let (n', e', f) = a.lives x n e in
        let (n'', e'', f') = b.lives x n' e' in (n'', e'', f' ∙ f);
    stays = λ x d. b.stays x (a.stays x d);
  }

  -- A type that is not to be replaced becomes known.
  pub IsReady-known :
      (known : List Ref) (s : Mutation) (r : Ref)
      → IsReady known s
      → IsIdentified s.graph r
      → IsReady (r ∷ known) s
  IsReady-known known s r h i = record {
    tracked = λ j q e. Memᴰ.tail (h.tracked j q e);
    identified = λ x m. elim m [
      | Memᴰ.head e ↦ subst (IsIdentified s.graph) (sym e) i
      | Memᴰ.tail m' ↦ h.identified x m'
    ];
  }

  -- A run with a type known at its start is one without it, if that type is done at its end.
  pub Run-known :
      (known known' : List Ref) (s s' : Mutation) (r : Ref)
      → Run (r ∷ known) s known' s'
      → IsDone known' s'.graph r
      → Run known s known' s'
  Run-known known known' s s' r a done = record {
    more = λ x m. a.more x (Memᴰ.tail m);
    keeps = a.keeps;
    ready = a.ready;
    new_done = λ x m. elim (a.new_done x m) [
      | inr d ↦ inr d
      | inl m' ↦ elim m' [
        | Memᴰ.head e ↦ inr (subst (IsDone known' s'.graph) (sym e) done)
        | Memᴰ.tail m'' ↦ inl m''
      ]
    ];
    lives = a.lives;
    stays = λ x (n, e, all).
        a.stays x (n, e, AllIn-more known (r ∷ known) (λ y m. Memᴰ.tail m) (walk_links n) all);
  }

  -- A type that is done becomes known.
  pub Run-done :
      (known : List Ref) (s : Mutation) (r : Ref)
      → IsReady known s
      → IsIdentified s.graph r
      → IsDone known s.graph r
      → Run known s (r ∷ known) s
  Run-done known s r ready i (n, e, all) =
      Run-known known (r ∷ known) s s r (Run-self (r ∷ known) s (IsReady-known known s r ready i))
        (n, e, AllIn-more known (r ∷ known) (λ y m. Memᴰ.tail m) (walk_links n) all)
