-- ===== src/Features/Conflicts.antt =====
-- The whole of handleFeatureConflicts: whether a set of features is left that the user's choice allows.
use object_introspection.Prelude.{
  ℕ, ◌≡◌, refl, sym, subst, List, [], ◌∷◌, Option, none, some, true, false, All, arith, Bool-cases,
  inl, inr, ◌⊎◌, ◌==◌, ◌≤◌, ok,
}
use object_introspection.Features.{
  Feature, unknown_feature, bit, all_features, FeatureSet, conflicts, any_of, Checking,
  conflict_free, without_conflicts, handle_feature_conflicts,
}
use object_introspection.Features.Bits.{
  bit-injective, On, Off, has, Off-On, All-has, any_of-On, any_of-Off, has-every,
}
use object_introspection.Features.Rounds.{Closed, Sound, Refusal}
use object_introspection.Features.Checks.{
  known-or, every, off_in, off_in-length, Checked, check_all-Checked,
}

-- A set that has the features the user asked for, adds none that the user disabled, has the
-- requirements of its features, and no two features in conflict.
pub record Admissible (enabled disabled t : FeatureSet) : Type 0 where
  pub user : (x : Feature) → On enabled x → On t x
  pub allowed : (x : Feature) → On t x → On enabled x ⊎ Off disabled x
  pub closed : Closed t
  pub free : (x : Feature) → On t x → All (Off t) (conflicts x)

-- An answer: the least admissible set, or none if there is no such set.
abbrev pub Settles : FeatureSet → FeatureSet → Option FeatureSet → Type 0
Settles enabled disabled none = (t : FeatureSet) → ¬ Admissible enabled disabled t
Settles enabled disabled (some t) =
    Admissible enabled disabled t
    × ((t' : FeatureSet) → Admissible enabled disabled t' → (x : Feature) → On t x → On t' x)

conflict_free-All :
    (s : FeatureSet) (fs : List Feature)
    → conflict_free s fs ≡ true
    → (x : Feature) → has fs x ≡ true
    → On s x
    → All (Off s) (conflicts x)
unfolding conflict_free
conflict_free-All s [] h x m on = cc
conflict_free-All s (f ∷ fs) h x m on = elim (Bool-cases (bit f == bit x)) [
  | inl same ↦
      let e : f ≡ x = bit-injective f x same in
      let on_f : On s f = subst (On s) (sym e) on in
      subst (λ y. All (Off s) (conflicts y)) e (any_of-Off (conflicts f) s (ground arith))
  | inr other ↦ conflict_free-All s fs (ground arith) x (ground arith) on
]

conflict_found :
    (s : FeatureSet) (fs : List Feature)
    → conflict_free s fs ≡ false
    → (x y : Feature) × On s x × (has (conflicts x) y ≡ true) × On s y
unfolding conflict_free
conflict_found s [] h = cc
conflict_found s (f ∷ fs) h = elim (Bool-cases (s f)) [
  | inl on ↦ elim (Bool-cases (any_of (conflicts f) s)) [
    | inl clash ↦ let (y, m, e) = any_of-On (conflicts f) s clash in (f, y, on, m, e)
    | inr fits ↦ conflict_found s fs (ground arith)
  ]
  | inr off ↦ conflict_found s fs (ground arith)
]

start_Sound :
    (enabled disabled : FeatureSet)
    → Sound enabled disabled (record { enabled = enabled; to_check = enabled })
start_Sound enabled disabled = record {
  user = λ x h. h;
  within = λ x h. h;
  checked = λ x h. inl h;
  allowed = λ x h. inl h;
  least = λ t sub closed. sub;
}

Refusal-Settles :
    (enabled disabled : FeatureSet) → Refusal enabled disabled → Settles enabled disabled none
Refusal-Settles enabled disabled q t a = elim (a.allowed q.feature (q.needed t a.user a.closed)) [
  | inl on ↦ Off-On enabled q.feature q.missing on
  | inr off ↦ Off-On disabled q.feature off q.refused
]

free_of_conflict_free :
    (s : FeatureSet)
    → conflict_free s all_features ≡ true
    → (x : Feature) → On s x
    → All (Off s) (conflicts x)
free_of_conflict_free s h x on = elim (Bool-cases (has all_features x)) [
  | inl m ↦ conflict_free-All s all_features h x m on
  | inr out ↦ subst (λ y. All (Off s) (conflicts y)) (sym (known-or x out)) tt
]

module _ (enabled disabled : FeatureSet) (s : Checking) (i : Sound enabled disabled s) where
  free-Settles :
      All (Off s.to_check) every
      → conflict_free s.enabled all_features ≡ true
      → Settles enabled disabled (some s.enabled)
  free-Settles done h = (
    record {
      user = i.user;
      allowed = i.allowed;
      closed = λ x on. elim (i.checked x on) [
        | inl c ↦
            absurd (Off-On s.to_check x (All-has (Off s.to_check) every done x (has-every x)) c)
        | inr all ↦ all
      ];
      free = free_of_conflict_free s.enabled h;
    },
    λ t a. i.least t a.user a.closed,
  )

  clash-Settles : conflict_free s.enabled all_features ≡ false → Settles enabled disabled none
  clash-Settles h t a =
      let (x, y, on_x, m, on_y) = conflict_found s.enabled all_features h in
      let within = i.least t a.user a.closed in
      Off-On t y (All-has (Off t) (conflicts x) (a.free x (within x on_x)) y m) (within y on_y)

Checked-Settles :
    (enabled disabled : FeatureSet) (o : Option FeatureSet)
    → Checked enabled disabled o
    → (r : Option FeatureSet) × (without_conflicts o ≡ ok r) × Settles enabled disabled r
Checked-Settles enabled disabled none q = (none, refl, Refusal-Settles enabled disabled q)
Checked-Settles enabled disabled (some t) (s, e, i, done) =
    subst
      (λ t.
        (r : Option FeatureSet) × (without_conflicts (some t) ≡ ok r) × Settles enabled disabled r)
      e
      (elim (Bool-cases (conflict_free s.enabled all_features)) [
        | inl free ↦ rw free (some s.enabled, refl, free-Settles enabled disabled s i done free)
        | inr clash ↦ rw clash (none, refl, clash-Settles enabled disabled s i clash)
      ])

-- If the unknown feature is not enabled, the check ends in at most 15 rounds, and gives either the least
-- set of features that has those enabled, adds none that is disabled, has the requirements of its
-- features and no two in conflict, or nothing, and then no such set exists.
pub handle_feature_conflicts-Settles :
    (enabled disabled : FeatureSet) (n : ℕ)
    → Off enabled unknown_feature
    → 15 ≤ n
    → (o : Option FeatureSet) × (handle_feature_conflicts n enabled disabled ≡ ok o)
      × Settles enabled disabled o
unfolding handle_feature_conflicts
handle_feature_conflicts-Settles enabled disabled n known enough =
    let few : off_in every enabled ≤ 13 = off_in-length every enabled in
    let (o, e, c) =
      check_all-Checked enabled disabled known n (record { enabled = enabled; to_check = enabled })
        (start_Sound enabled disabled) (inr (omega arith)) (omega arith) in
    rw e (Checked-Settles enabled disabled o c)
