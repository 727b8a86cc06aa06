-- ===== src/Features/Rounds.antt =====
-- A visit of a feature and a round of visits: what holds between them, and what they leave to check.
use object_introspection.Prelude.{
  ◌≡◌, refl, sym, subst, List, [], ◌∷◌, Option, none, some, false, All, All-map, arith, Bool-cases,
  inl, inr, ◌⊎◌, ◌==◌,
}
use object_introspection.Features.{
  Feature, bit, FeatureSet, set_bit, requirements, Checking, check_feature, check_round,
}
use object_introspection.Features.Bits.{
  bit-injective, On, Off, has, cleared-bit, cleared-other, Off-On, Off_of_not, All-has,
}
use object_introspection.Features.Requires.{Requires, Refused, Ensures, require_all-Requires}

abbrev visited : Feature → Checking → Checking
visited f s = record s { to_check = set_bit f false s.to_check }

-- Every feature that is on has its requirements on.
abbrev pub Closed : FeatureSet → Type 0
Closed t = (x : Feature) → On t x → All (On t) (requirements x)

-- What holds between two visits: the features on are the user's and what those need, and a feature
-- that is not left to check has its requirements on.
pub record Sound (enabled disabled : FeatureSet) (s : Checking) : Type 0 where
  pub user : (x : Feature) → On enabled x → On s.enabled x
  pub within : (x : Feature) → On s.to_check x → On s.enabled x
  pub checked :
      (x : Feature) → On s.enabled x → On s.to_check x ⊎ All (On s.enabled) (requirements x)
  pub allowed : (x : Feature) → On s.enabled x → On enabled x ⊎ Off disabled x
  pub least :
      (t : FeatureSet)
      → ((x : Feature) → On enabled x → On t x)
      → Closed t
      → (x : Feature) → On s.enabled x
      → On t x

-- A feature that every closed set has, and that is disabled.
pub record Refusal (enabled disabled : FeatureSet) : Type 0 where
  pub feature : Feature
  pub missing : Off enabled feature
  pub refused : On disabled feature
  pub needed : (t : FeatureSet) → ((x : Feature) → On enabled x → On t x) → Closed t → On t feature

module _ (enabled disabled : FeatureSet) (f : Feature) (s : Checking) where
  visit-Sound :
      (o : Option Checking)
      → Ensures o
          (Requires disabled (requirements f) (visited f s))
          (Refused disabled (requirements f) (visited f s))
      → Sound enabled disabled s
      → On s.to_check f
      → Ensures o (Sound enabled disabled) (Refusal enabled disabled)
  visit-Sound none q i on = record {
    feature = q.feature;
    missing =
        Off_of_not enabled q.feature
          (λ h. Off-On s.enabled q.feature q.missing (i.user q.feature h));
    refused = q.refused;
    needed = λ t sub closed.
        All-has (On t) (requirements f) (closed f (i.least t sub closed f (i.within f on)))
          q.feature q.required;
  }
  visit-Sound (some s') q i on = record {
    user = λ x h. q.kept x (i.user x h);
    within = λ x h. elim (q.marked x h) [
      | inl c ↦ q.kept x (i.within x (cleared-bit f s.to_check x c).0)
      | inr (_, n) ↦ n
    ];
    checked = λ x h. elim (q.added x h) [
      | inl b ↦ elim (i.checked x b) [
        | inl c ↦ elim (cleared-other f s.to_check x c) [
          | inl same ↦ inr (subst (λ y. All (On s'.enabled) (requirements y)) same q.all)
          | inr left ↦ inl (q.still x left)
        ]
        | inr all ↦ inr (All-map q.kept (requirements x) all)
      ]
      | inr (_, _, c) ↦ inl c
    ];
    allowed = λ x h. elim (q.added x h) [ inl b ↦ i.allowed x b | inr (_, o, _) ↦ inr o ];
    least = λ t sub closed x h. elim (q.added x h) [
      | inl b ↦ i.least t sub closed x b
      | inr (m, _, _) ↦
          All-has (On t) (requirements f) (closed f (i.least t sub closed f (i.within f on))) x m
    ];
  }

-- What visiting `fs` leaves to check: what it did not visit, and what it enabled.
pub record Progress (fs : List Feature) (s s' : Checking) : Type 0 where
  pub grows : (x : Feature) → On s.enabled x → On s'.enabled x
  pub left :
      (x : Feature)
      → On s'.to_check x
      → (On s.to_check x × (has fs x ≡ false)) ⊎ (Off s.enabled x × On s'.enabled x)

visit-Progress :
    (disabled : FeatureSet) (f : Feature) (s : Checking) (o : Option Checking)
    → Ensures o
        (Requires disabled (requirements f) (visited f s))
        (Refused disabled (requirements f) (visited f s))
    → Ensures o (Progress (f ∷ []) s) Unit
visit-Progress disabled f s none q = tt
visit-Progress disabled f s (some s') q = record {
  grows = q.kept;
  left = λ x h. elim (q.marked x h) [
    | inl c ↦ let (on, other) = cleared-bit f s.to_check x c in inl (on, ground arith)
    | inr n ↦ inr n
  ];
}

-- The two together, for the features `fs`.
abbrev pub Visits : FeatureSet → FeatureSet → List Feature → Checking → Option Checking → Type 0
Visits enabled disabled fs s o =
    Ensures o (Sound enabled disabled) (Refusal enabled disabled) × Ensures o (Progress fs s) Unit

Off-ne : (t : FeatureSet) (f x : Feature) → Off t f → On t x → (bit f == bit x) ≡ false
Off-ne t f x off on = elim (Bool-cases (bit f == bit x)) [
  | inl same ↦ absurd (Off-On t f off (subst (On t) (sym (bit-injective f x same)) on))
  | inr other ↦ other
]

check_feature-Visits :
    (enabled disabled : FeatureSet) (f : Feature) (s : Checking)
    → Sound enabled disabled s
    → Visits enabled disabled (f ∷ []) s (check_feature disabled f s)
unfolding check_feature
check_feature-Visits enabled disabled f s i = elim (Bool-cases (s.to_check f)) [
  | inl on ↦
      let q = require_all-Requires disabled (requirements f) (visited f s) in
      rw on (visit-Sound enabled disabled f s _ q i on, visit-Progress disabled f s _ q)
  | inr off ↦ rw off (
    i,
    record {
      grows = λ x h. h;
      left = λ x h. inl (h, (let e = Off-ne s.to_check f x off h in ground arith));
    },
  )
]

Progress-next :
    (f : Feature) (fs : List Feature) (s s' s'' : Checking)
    → Progress (f ∷ []) s s'
    → Progress fs s' s''
    → Progress (f ∷ fs) s s''
Progress-next f fs s s' s'' p q = record {
  grows = λ x h. q.grows x (p.grows x h);
  left = λ x h. elim (q.left x h) [
    | inl (c, m) ↦ elim (p.left x c) [
      | inl (on, other) ↦ inl (on, ground arith)
      | inr (off, on) ↦ inr (off, q.grows x on)
    ]
    | inr (off, on) ↦ inr (Off_of_not s.enabled x (λ h. Off-On s'.enabled x off (p.grows x h)), on)
  ];
}

module _ (enabled disabled : FeatureSet) (f : Feature) (fs : List Feature) (s : Checking) where
  Visits-next :
      (s' : Checking) (o : Option Checking)
      → Visits enabled disabled (f ∷ []) s (some s')
      → Visits enabled disabled fs s' o
      → Visits enabled disabled (f ∷ fs) s o
  Visits-next s' none v w = (w.0, tt)
  Visits-next s' (some s'') v w = (w.0, Progress-next f fs s s' s'' v.1 w.1)

pub check_round-Visits :
    (enabled disabled : FeatureSet) (fs : List Feature) (s : Checking)
    → Sound enabled disabled s
    → Visits enabled disabled fs s (check_round disabled fs s)
unfolding check_round
check_round-Visits enabled disabled [] s i =
    (i, record { grows = λ x h. h; left = λ x h. inl (h, refl) })
check_round-Visits enabled disabled (f ∷ fs) s i =
    (elim (check_feature disabled f s)
        as (λ o.
          Visits enabled disabled (f ∷ []) s o
          → Visits enabled disabled (f ∷ fs) s
              (elim o [ none ↦ none | some s' ↦ check_round disabled fs s' ])) [
                | none ↦ λ v. (v.0, tt)
                | some s' ↦ λ v.
                    Visits-next enabled disabled f fs s s' _ v
                      (check_round-Visits enabled disabled fs s' v.0)
              ])
      (check_feature-Visits enabled disabled f s i)
