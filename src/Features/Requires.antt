-- ===== src/Features/Requires.antt =====
-- The loop over the requirements of a feature: what it enables, and what it leaves to check.
use object_introspection.Prelude.{
  ◌≡◌, refl, subst, List, [], ◌∷◌, Option, none, some, true, All, Bool-cases, inl, inr, ◌⊎◌,
}
use object_introspection.Features.{Feature, FeatureSet, Checking, require, require_all}
use object_introspection.Features.Bits.{
  On, Off, has, set_bit-keeps, set_bit-self, Off-set_bit, set_bit-cases, has-here, has-there,
}

-- What requiring `rs` does: it enables them all, and marks for the check what was not enabled.
pub record Requires (disabled : FeatureSet) (rs : List Feature) (s s' : Checking) : Type 0 where
  pub kept : (x : Feature) → On s.enabled x → On s'.enabled x
  pub still : (x : Feature) → On s.to_check x → On s'.to_check x
  pub added :
      (x : Feature)
      → On s'.enabled x
      → On s.enabled x ⊎ ((has rs x ≡ true) × Off disabled x × On s'.to_check x)
  pub marked :
      (x : Feature) → On s'.to_check x → On s.to_check x ⊎ (Off s.enabled x × On s'.enabled x)
  pub all : All (On s'.enabled) rs

-- A requirement that is disabled, and was not enabled.
pub record Refused (disabled : FeatureSet) (rs : List Feature) (s : Checking) : Type 0 where
  pub feature : Feature
  pub required : has rs feature ≡ true
  pub missing : Off s.enabled feature
  pub refused : On disabled feature

abbrev pub Ensures : Option Checking → (Checking → Type 0) → Type 0 → Type 0
Ensures none P Q = Q
Ensures (some s) P Q = P s

module _ (disabled : FeatureSet) (r : Feature) (rs : List Feature) (s : Checking) where
  require_all-on : On s.enabled r → require_all disabled (r ∷ rs) s ≡ require_all disabled rs s
  unfolding require_all
  require_all-on h = rw h refl

  require_all-refused : Off s.enabled r → On disabled r → require_all disabled (r ∷ rs) s ≡ none
  unfolding require_all
  require_all-refused h d = rw (h, d) refl

  require_all-added :
      Off s.enabled r
      → Off disabled r
      → require_all disabled (r ∷ rs) s ≡ require_all disabled rs (require r s)
  unfolding require_all
  require_all-added h d = rw (h, d) refl

  Requires-on :
      (o : Option Checking)
      → On s.enabled r
      → Ensures o (Requires disabled rs s) (Refused disabled rs s)
      → Ensures o (Requires disabled (r ∷ rs) s) (Refused disabled (r ∷ rs) s)
  Requires-on none h q = record {
    feature = q.feature;
    required = has-there r rs q.feature q.required;
    missing = q.missing;
    refused = q.refused;
  }
  Requires-on (some s') h q = record {
    kept = q.kept;
    still = q.still;
    added = λ x e. elim (q.added x e) [
      | inl b ↦ inl b
      | inr (m, o, c) ↦ inr (has-there r rs x m, o, c)
    ];
    marked = q.marked;
    all = (q.kept r h, q.all);
  }

  Requires-added :
      (o : Option Checking)
      → Off s.enabled r
      → Off disabled r
      → Ensures o (Requires disabled rs (require r s)) (Refused disabled rs (require r s))
      → Ensures o (Requires disabled (r ∷ rs) s) (Refused disabled (r ∷ rs) s)
  Requires-added none h d q = record {
    feature = q.feature;
    required = has-there r rs q.feature q.required;
    missing = Off-set_bit r s.enabled q.feature q.missing;
    refused = q.refused;
  }
  Requires-added (some s') h d q =
      let on_r : On s'.enabled r = q.kept r (set_bit-self r s.enabled) in
      record {
        kept = λ x e. q.kept x (set_bit-keeps r s.enabled x e);
        still = λ x e. q.still x (set_bit-keeps r s.to_check x e);
        added = λ x e. elim (q.added x e) [
          | inl b ↦ elim (set_bit-cases r s.enabled x b) [
            | inl same ↦ inr (
              has-here rs same,
              subst (Off disabled) same d,
              subst (On s'.to_check) same (q.still r (set_bit-self r s.to_check)),
            )
            | inr before ↦ inl before
          ]
          | inr (m, o, c) ↦ inr (has-there r rs x m, o, c)
        ];
        marked = λ x e. elim (q.marked x e) [
          | inl b ↦ elim (set_bit-cases r s.to_check x b) [
            | inl same ↦ inr (subst (Off s.enabled) same h, subst (On s'.enabled) same on_r)
            | inr before ↦ inl before
          ]
          | inr (o, n) ↦ inr (Off-set_bit r s.enabled x o, n)
        ];
        all = (on_r, q.all);
      }

pub require_all-Requires :
    (disabled : FeatureSet) (rs : List Feature) (s : Checking)
    → Ensures (require_all disabled rs s) (Requires disabled rs s) (Refused disabled rs s)
unfolding require_all
require_all-Requires disabled [] s = record {
  kept = λ x h. h;
  still = λ x h. h;
  added = λ x h. inl h;
  marked = λ x h. inl h;
  all = tt;
}
require_all-Requires disabled (r ∷ rs) s = elim (Bool-cases (s.enabled r)) [
  | inl on ↦
      rw (require_all-on disabled r rs s on)
        (Requires-on disabled r rs s _ on (require_all-Requires disabled rs s))
  | inr off ↦ elim (Bool-cases (disabled r)) [
    | inl d ↦
        rw (require_all-refused disabled r rs s off d)
          (record { feature = r; required = has-here rs refl; missing = off; refused = d })
    | inr d ↦
        rw (require_all-added disabled r rs s off d)
          (Requires-added disabled r rs s _ off d (require_all-Requires disabled rs (require r s)))
  ]
]
