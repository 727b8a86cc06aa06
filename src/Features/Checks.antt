-- ===== src/Features/Checks.antt =====
-- The rounds of the check: each that leaves something to check enables another feature, so they end.
use object_introspection.Prelude.{
  ℕ, zero, suc, ◌≡◌, refl, sym, subst, List, [], ◌∷◌, Option, none, some, true, false, All, arith,
  Bool-cases, inl, inr, ◌⊎◌, if◌then◌else◌, ◌==◌, ◌+◌, ◌≤◌, ◌<◌, length, ok,
}
use object_introspection.Features.{
  Feature, unknown_feature, chase_raw_pointers, pack_structs, gen_padding_stats,
  capture_thrift_isset, type_graph, prune_type_graph, library, tree_builder_v2, gen_jit_debug,
  jit_logging, jit_timing, polymorphic_inheritance, bit, all_features, FeatureSet, any, Checking,
  check_round, check_all,
}
use object_introspection.Features.Bits.{
  On, Off, has, bit-injective, Off-On, Off_of_not, any_of-On, any_of-Off,
}
use object_introspection.Features.Rounds.{
  Closed, Sound, Refusal, Progress, Visits, check_round-Visits,
}

-- How many of the features are off.
pub off_in : List Feature → FeatureSet → ℕ
off_in [] s = 0
off_in (f ∷ fs) s = if s f then off_in fs s else suc (off_in fs s)

module _ (s s' : FeatureSet) (grows : (x : Feature) → On s x → On s' x) where
  off_in-le : (fs : List Feature) → off_in fs s' ≤ off_in fs s
  unfolding off_in
  off_in-le [] = omega arith
  off_in-le (f ∷ fs) = let rest = off_in-le fs in let g = grows f in ground arith

  off_in-lt :
      (fs : List Feature) (x : Feature)
      → has fs x ≡ true
      → Off s x
      → On s' x
      → off_in fs s' < off_in fs s
  unfolding off_in
  off_in-lt [] x m off on = cc
  off_in-lt (f ∷ fs) x m off on = elim (Bool-cases (bit f == bit x)) [
    | inl same ↦
        let e : f ≡ x = bit-injective f x same in
        let off_f : Off s f = subst (Off s) (sym e) off in
        let on_f : On s' f = subst (On s') (sym e) on in let rest = off_in-le fs in ground arith
    | inr other ↦ let rest = off_in-lt fs x (ground arith) off on in let g = grows f in ground arith
  ]

pub off_in-length : (fs : List Feature) (s : FeatureSet) → off_in fs s ≤ length fs
unfolding off_in
off_in-length [] s = omega arith
off_in-length (f ∷ fs) s = let rest = off_in-length fs s in ground arith

abbrev pub every : List Feature
every = unknown_feature ∷ all_features

-- The set that a check ends with, or the feature that stops it.
abbrev pub Checked : FeatureSet → FeatureSet → Option FeatureSet → Type 0
Checked enabled disabled none = Refusal enabled disabled
Checked enabled disabled (some t) =
    (s : Checking) × (s.enabled ≡ t) × Sound enabled disabled s × All (Off s.to_check) every

abbrev is_known : FeatureSet
is_known x = has all_features x

pub known-or : (x : Feature) → has all_features x ≡ false → x ≡ unknown_feature
known-or unknown_feature h = refl
known-or chase_raw_pointers h = cc
known-or pack_structs h = cc
known-or gen_padding_stats h = cc
known-or capture_thrift_isset h = cc
known-or type_graph h = cc
known-or prune_type_graph h = cc
known-or library h = cc
known-or tree_builder_v2 h = cc
known-or gen_jit_debug h = cc
known-or jit_logging h = cc
known-or jit_timing h = cc
known-or polymorphic_inheritance h = cc

known_Closed : Closed is_known
known_Closed unknown_feature h = tt
known_Closed chase_raw_pointers h = tt
known_Closed pack_structs h = tt
known_Closed gen_padding_stats h = tt
known_Closed capture_thrift_isset h = tt
known_Closed type_graph h = tt
known_Closed prune_type_graph h = tt
known_Closed library h = (refl, tt)
known_Closed tree_builder_v2 h = (refl, tt)
known_Closed gen_jit_debug h = tt
known_Closed jit_logging h = tt
known_Closed jit_timing h = tt
known_Closed polymorphic_inheritance h = tt

module _ (enabled disabled : FeatureSet) (known : Off enabled unknown_feature) where
  known_user : (x : Feature) → On enabled x → On is_known x
  known_user x h = elim (Bool-cases (is_known x)) [
    | inl on ↦ on
    | inr out ↦
        absurd (Off-On enabled unknown_feature known (subst (On enabled) (known-or x out) h))
  ]

  Sound-known : (s : Checking) → Sound enabled disabled s → Off s.enabled unknown_feature
  Sound-known s i =
      Off_of_not s.enabled unknown_feature
        (λ h. cc (i.least is_known known_user known_Closed unknown_feature h))

  -- After a round that leaves something to check, more features are on.
  round-lt :
      (s s' : Checking)
      → Sound enabled disabled s
      → Sound enabled disabled s'
      → Progress all_features s s'
      → any s'.to_check ≡ true
      → off_in every s'.enabled < off_in every s.enabled
  round-lt s s' i i' p h =
      let (x, m, on) = any_of-On every s'.to_check h in
      elim (p.left x on) [
        | inl (c, out) ↦ absurd (
            Off-On s.enabled unknown_feature (Sound-known s i)
              (subst (On s.enabled) (known-or x out) (i.within x c)))
        | inr (off, on') ↦ off_in-lt s.enabled s'.enabled p.grows every x m off on'
      ]

  pub check_all-Checked :
      (n : ℕ) (s : Checking)
      → Sound enabled disabled s
      → (any s.to_check ≡ false) ⊎ (off_in every s.enabled + 1 < n)
      → 0 < n
      → (o : Option FeatureSet) × (check_all n disabled s ≡ ok o) × Checked enabled disabled o
  unfolding check_all
  check_all-Checked zero s i e pos_n = absurd (ground arith)
  check_all-Checked (suc n) s i e pos_n = elim (Bool-cases (any s.to_check)) [
    | inr off ↦
        rw (off, check_all) (some s.enabled, refl, (s, refl, i, any_of-Off every s.to_check off))
    | inl on ↦
        let enough : off_in every s.enabled + 1 < suc n = elim e [ inl off ↦ cc | inr lt ↦ lt ] in
        rw (on, check_all)
          ((elim (check_round disabled all_features s)
              as (λ o.
                Visits enabled disabled all_features s o
                → (r : Option FeatureSet) × (elim o [
                  | none ↦ ok none
                  | some s' ↦ check_all n disabled s'
                ]
                    ≡ ok r)
                  × Checked enabled disabled r) [
                    | none ↦ λ v. (none, refl, v.0)
                    | some s' ↦ λ v.
                        check_all-Checked n s' v.0
                          (elim (Bool-cases (any s'.to_check)) [
                            | inr off ↦ inl off
                            | inl on' ↦ let lt = round-lt s s' i v.0 v.1 on' in inr (omega arith)
                          ])
                          (omega arith)
                  ])
            (check_round-Visits enabled disabled all_features s i))
  ]
