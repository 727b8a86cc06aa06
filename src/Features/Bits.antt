-- ===== src/Features/Bits.antt =====
-- Sets of features read by their bits, and lists of them.
use object_introspection.Prelude.{
  ℕ, zero, suc, ◌≡◌, refl, sym, ◌∙◌, ap, subst, List, [], ◌∷◌, Bool, true, false, All, arith,
  Bool-cases, inl, inr, ◌⊎◌, ◌==◌, ◌||◌, eq_of_==,
}
use object_introspection.Features.{
  Feature, unknown_feature, chase_raw_pointers, pack_structs, gen_padding_stats,
  capture_thrift_isset, type_graph, prune_type_graph, library, tree_builder_v2, gen_jit_debug,
  jit_logging, jit_timing, polymorphic_inheritance, bit, all_features, FeatureSet, set_bit, any_of,
}

abbrev pub On : FeatureSet → Feature → Type 0
On s f = s f ≡ true

abbrev pub Off : FeatureSet → Feature → Type 0
Off s f = s f ≡ false

abbrev pub has : List Feature → Feature → Bool
has [] f = false
has (g ∷ gs) f = bit g == bit f || has gs f

abbrev of_bit : ℕ → Feature
of_bit zero = unknown_feature
of_bit (suc zero) = chase_raw_pointers
of_bit (suc (suc zero)) = pack_structs
of_bit (suc (suc (suc zero))) = gen_padding_stats
of_bit (suc (suc (suc (suc zero)))) = capture_thrift_isset
of_bit (suc (suc (suc (suc (suc zero))))) = type_graph
of_bit (suc (suc (suc (suc (suc (suc zero)))))) = prune_type_graph
of_bit (suc (suc (suc (suc (suc (suc (suc zero))))))) = library
of_bit (suc (suc (suc (suc (suc (suc (suc (suc zero)))))))) = tree_builder_v2
of_bit (suc (suc (suc (suc (suc (suc (suc (suc (suc zero))))))))) = gen_jit_debug
of_bit (suc (suc (suc (suc (suc (suc (suc (suc (suc (suc zero)))))))))) = jit_logging
of_bit (suc (suc (suc (suc (suc (suc (suc (suc (suc (suc (suc zero))))))))))) = jit_timing
of_bit (suc (suc (suc (suc (suc (suc (suc (suc (suc (suc (suc (suc n)))))))))))) =
    polymorphic_inheritance

of_bit-bit : (f : Feature) → of_bit (bit f) ≡ f
of_bit-bit unknown_feature = refl
of_bit-bit chase_raw_pointers = refl
of_bit-bit pack_structs = refl
of_bit-bit gen_padding_stats = refl
of_bit-bit capture_thrift_isset = refl
of_bit-bit type_graph = refl
of_bit-bit prune_type_graph = refl
of_bit-bit library = refl
of_bit-bit tree_builder_v2 = refl
of_bit-bit gen_jit_debug = refl
of_bit-bit jit_logging = refl
of_bit-bit jit_timing = refl
of_bit-bit polymorphic_inheritance = refl

pub bit-injective : (f g : Feature) → (bit f == bit g) ≡ true → f ≡ g
bit-injective f g h = sym (of_bit-bit f) ∙ ap of_bit (eq_of_== (bit f) (bit g) h) ∙ of_bit-bit g

pub set_bit-keeps : (r : Feature) (s : FeatureSet) (x : Feature) → On s x → On (set_bit r true s) x
set_bit-keeps r s x h = ground arith

pub set_bit-self : (r : Feature) (s : FeatureSet) → On (set_bit r true s) r
set_bit-self r s = ground arith

pub Off-set_bit : (r : Feature) (s : FeatureSet) (x : Feature) → Off (set_bit r true s) x → Off s x
Off-set_bit r s x h = ground arith

pub set_bit-cases :
    (r : Feature) (s : FeatureSet) (x : Feature) → On (set_bit r true s) x → (r ≡ x) ⊎ On s x
set_bit-cases r s x h = elim (Bool-cases (bit r == bit x)) [
  | inl same ↦ inl (bit-injective r x same)
  | inr other ↦ inr (ground arith)
]

pub has-here : {r x : Feature} (rs : List Feature) → r ≡ x → has (r ∷ rs) x ≡ true
has-here {r = r} {x = x} rs h = let e : bit r ≡ bit x = ap bit h in ground arith

pub has-there :
    (r : Feature) (rs : List Feature) (x : Feature) → has rs x ≡ true → has (r ∷ rs) x ≡ true
has-there r rs x h = ground arith

-- What clearing a bit leaves.
pub cleared-bit :
    (f : Feature) (s : FeatureSet) (x : Feature)
    → On (set_bit f false s) x
    → On s x × ((bit f == bit x) ≡ false)
cleared-bit f s x h = ground arith

pub cleared-other :
    (f : Feature) (s : FeatureSet) (x : Feature) → On s x → (f ≡ x) ⊎ On (set_bit f false s) x
cleared-other f s x h = elim (Bool-cases (bit f == bit x)) [
  | inl same ↦ inl (bit-injective f x same)
  | inr other ↦ inr (ground arith)
]

pub Off-On : (s : FeatureSet) (x : Feature) → Off s x → On s x → ⊥
Off-On s x h k = cc

pub Off_of_not : (s : FeatureSet) (x : Feature) → ¬ On s x → Off s x
Off_of_not s x h = elim (Bool-cases (s x)) [ inl on ↦ absurd (h on) | inr off ↦ off ]

pub All-has :
    (P : Feature → Type 0) (fs : List Feature) → All P fs → (x : Feature) → has fs x ≡ true → P x
All-has P [] h x e = cc
All-has P (f ∷ fs) h x e = elim (Bool-cases (bit f == bit x)) [
  | inl same ↦ subst P (bit-injective f x same) h.0
  | inr other ↦ All-has P fs h.1 x (ground arith)
]

-- `any` finds a bit of the list that is set.
pub any_of-On :
    (fs : List Feature) (s : FeatureSet)
    → any_of fs s ≡ true
    → (x : Feature) × (has fs x ≡ true) × On s x
any_of-On [] s h = cc
any_of-On (f ∷ fs) s h = elim (Bool-cases (s f)) [
  | inl on ↦ (f, has-here fs refl, on)
  | inr off ↦ let (x, m, e) = any_of-On fs s (ground arith) in (x, has-there f fs x m, e)
]

pub any_of-Off : (fs : List Feature) (s : FeatureSet) → any_of fs s ≡ false → All (Off s) fs
any_of-Off [] s h = tt
any_of-Off (f ∷ fs) s h = (ground arith, any_of-Off fs s (ground arith))

pub has-every : (x : Feature) → has (unknown_feature ∷ all_features) x ≡ true
has-every unknown_feature = refl
has-every chase_raw_pointers = refl
has-every pack_structs = refl
has-every gen_padding_stats = refl
has-every capture_thrift_isset = refl
has-every type_graph = refl
has-every prune_type_graph = refl
has-every library = refl
has-every tree_builder_v2 = refl
has-every gen_jit_debug = refl
has-every jit_logging = refl
has-every jit_timing = refl
has-every polymorphic_inheritance = refl
