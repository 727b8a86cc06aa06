-- ===== src/PointerHashSet/Adds.antt =====
-- The probe ends, and the table refines a set of at most as many pointers as it has slots.
use object_introspection.Prelude.{
  ℕ, zero, suc, ◌+◌, ◌≡◌, ◌≢◌, ◌≤◌, ◌<◌, refl, sym, ◌∙◌, ap, subst, Bool, true, false, get_or, set,
  length, arith, if◌then◌else◌, ◌==◌, leb, ltb, Bool-cases, inl, inr, ◌⊎◌, ◌↔◌, ok, length-set,
  eq_of_==, replicate,
}
use native.Mathlib.Nat.{mod-lt}
use object_introspection.Tracker.Marks.{get_or-set}
use object_introspection.PointerHashSet.{PointerHashSet, probe, add, initialize}
use object_introspection.PointerHashSet.Probes.{
  slot, Member, wrap, home, Reaches, IsTable, occupied-set, occupied_full, wrap_next, wrap_cover,
  occupied_empty,
}

-- Every place before the `k`-th on the probe of `p` is taken, by another pointer.
abbrev Passed : PointerHashSet → ℕ → ℕ → Type 0
Passed s p k =
    (j : ℕ)
    → j < k
    → (slot s (wrap (length s.entries) (home s p + j)) ≢ 0)
      × (slot s (wrap (length s.entries) (home s p + j)) ≢ p)

get_or-replicate : (n i : ℕ) → ◌≡◌ {A = ℕ} (get_or (replicate n 0) i 0) 0
get_or-replicate zero i = refl
get_or-replicate (suc n) zero = refl
get_or-replicate (suc n) (suc i) = get_or-replicate n i

lt_cases : (a b : ℕ) → ((a < b) ⊎ (b < a)) ⊎ (a ≡ b)
lt_cases a b = ground arith

module _ (s : PointerHashSet) (t : IsTable s) (p i k : ℕ) where
  abbrev inserted : PointerHashSet
  inserted = record { entries = set s.entries i p; num_entries = s.num_entries + 1 }

  -- A probe that meets an empty slot has seen all places where the pointer can be.
  not_found :
      slot s i ≡ 0
      → wrap (length s.entries) (home s p + k) ≡ i
      → Passed s p k
      → (j : ℕ) → slot s j ≡ p
      → p ≢ 0
      → ⊥
  not_found empty at passed j e nz =
      let slot_nz : slot s j ≢ 0 = λ z. nz (sym e ∙ z) in
      let (k₀, _, at₀, before) = subst (Reaches s j) e (t.reached j slot_nz) in
      elim (lt_cases k₀ k) [
        | inl (inl lt) ↦ (passed k₀ lt).1 (ap (slot s) at₀ ∙ e)
        | inl (inr gt) ↦ before k gt (ap (slot s) at ∙ empty)
        | inr same ↦ nz (
            sym e
            ∙ ap (slot s) (sym at₀ ∙ ap (λ m. wrap (length s.entries) (home s p + m)) same ∙ at)
            ∙ empty)
      ]

  module _ (inside : i < length s.entries) (empty : slot s i ≡ 0) (nz : p ≢ 0)
      (absent : (j : ℕ) → slot s j ≢ p) where
    slot-inserted : (j : ℕ) → slot inserted j ≡ (if j == i then p else slot s j)
    slot-inserted j = get_or-set s.entries i p j 0 inside

    still : (j : ℕ) → slot s j ≢ 0 → slot inserted j ≢ 0
    still j h = ground (arith, slot-inserted j)

    Reaches-inserted : (j q : ℕ) → Reaches s j q → Reaches inserted j q
    Reaches-inserted j q (m, lt, e, before) =
        rw (length-set s.entries i p) (m, lt, e, λ a b. still _ (before a b))

    inserted-IsTable :
        k < length s.entries
        → wrap (length s.entries) (home s p + k) ≡ i
        → Passed s p k
        → IsTable inserted
    inserted-IsTable short at passed = record {
      counted = omega (arith, t.counted, occupied-set s.entries i p inside empty nz);
      unique = λ a b h e.
          ground (arith, slot-inserted a, slot-inserted b, t.unique a b, absent a, absent b);
      reached = λ j h. elim (Bool-cases (j == i)) [
        | inl same ↦
            let e : p ≡ slot inserted j = ground (arith, slot-inserted j) in
            let here : wrap (length s.entries) (home s p + k) ≡ j = at ∙ sym (eq_of_== j i same) in
            subst (Reaches inserted j) e
              (Reaches-inserted j p (k, short, here, λ m lt. (passed m lt).0))
        | inr other ↦
            let e : slot s j ≡ slot inserted j = ground (arith, slot-inserted j) in
            let taken : slot s j ≢ 0 = λ z. h (sym e ∙ z) in
            subst (Reaches inserted j) e (Reaches-inserted j (slot s j) (t.reached j taken))
      ];
    }

-- What `add` answers, and what the set has then: the pointer is new, and is added, or nothing changes
-- because it is null, was there, or finds no room.
abbrev pub Adds : ℕ → PointerHashSet → Bool → PointerHashSet → Type 0
Adds p s true s' =
    (p ≢ 0)
    × (¬ Member s p)
    × (s'.num_entries ≡ s.num_entries + 1)
    × ((q : ℕ) → Member s' q ↔ (Member s q ⊎ (q ≡ p)))
Adds p s false s' = (s' ≡ s) × ((p ≡ 0) ⊎ Member s p ⊎ (length s.entries ≤ s.num_entries))

module _ (s : PointerHashSet) (t : IsTable s) (p : ℕ) (nz : p ≢ 0)
    (room : 0 < length s.entries) where
  -- A probe does not come back to its home: then every slot is taken.
  Passed-lt :
      (k : ℕ) → Passed s p k → (s.num_entries < length s.entries) ⊎ (k ≡ 0) → k < length s.entries
  Passed-lt k passed h = elim (Bool-cases (ltb k (length s.entries))) [
    | inl lt ↦ ground arith
    | inr round ↦
        let taken : (i : ℕ) → i < length s.entries → slot s i ≢ 0 = λ i lt z.
          let (j, jlt, e) = wrap_cover (length s.entries) (home s p) i (mod-lt _ room) lt in
          (passed j (ground arith)).0 (ap (slot s) e ∙ z) in
        let full = occupied_full s.entries taken in let num = t.counted in ground arith
  ]

  module _ (k : ℕ) (passed : Passed s p k) (short : k < length s.entries) where
    abbrev place : ℕ
    place = wrap (length s.entries) (home s p + k)

    place-lt : place < length s.entries
    place-lt = let lt : home s p < length s.entries = mod-lt _ room in ground arith

    Member-inserted :
        slot s place ≡ 0 → (q : ℕ) → Member (inserted s t p place k) q ↔ (Member s q ⊎ (q ≡ p))
    Member-inserted empty q = (
      λ (j, e, q_nz). elim (Bool-cases (j == place)) [
        | inl same ↦ inr (ground (arith, get_or-set s.entries place p j 0 place-lt))
        | inr other ↦ inl (j, ground (arith, get_or-set s.entries place p j 0 place-lt), q_nz)
      ],
      λ h. elim h [
        | inl (j, e, q_nz) ↦ (j, ground (arith, get_or-set s.entries place p j 0 place-lt), q_nz)
        | inr same ↦ (
          place,
          ground (arith, get_or-set s.entries place p place 0 place-lt),
          λ z. nz (sym same ∙ z),
        )
      ],
    )

    -- A turn of the loop that meets an empty slot.
    empty-Adds :
        slot s place ≡ 0 → IsTable (inserted s t p place k) × Adds p s true (inserted s t p place k)
    empty-Adds empty =
        let absent =
          λ (j : ℕ) (e : slot s j ≡ p). not_found s t p place k empty refl passed j e nz in
        (
          inserted-IsTable s t p place k place-lt empty nz absent short refl passed,
          (nz, (λ (j, e, _). absent j e), refl, Member-inserted empty),
        )

  one_more :
      (k : ℕ)
      → Passed s p k
      → slot s (wrap (length s.entries) (home s p + k)) ≢ 0
      → slot s (wrap (length s.entries) (home s p + k)) ≢ p
      → Passed s p (k + 1)
  one_more k passed nz_k ne_k j lt = elim (Bool-cases (j == k)) [
    | inl same ↦ rw (eq_of_== j k same) (nz_k, ne_k)
    | inr other ↦ passed j (ground arith)
  ]

  probe-Adds :
      (f k : ℕ)
      → length s.entries ≤ k + f
      → Passed s p k
      → (s.num_entries < length s.entries) ⊎ (k ≡ 0)
      → (b : Bool) × (s' : PointerHashSet) × (probe f p (wrap (length s.entries) (home s p + k)) s
          ≡ ok (b, s'))
        × IsTable s'
        × Adds p s b s'
  unfolding probe
  probe-Adds zero k enough passed h = let lt = Passed-lt k passed h in absurd (omega arith)
  probe-Adds (suc f) k enough passed h =
      let short = Passed-lt k passed h in
      let entry : ℕ = slot s (place k passed short) in
      elim (Bool-cases (entry == 0)) [
        | inl empty ↦
            let (t', added) = empty-Adds k passed short (eq_of_== _ 0 empty) in
            rw empty (true, _, refl, t', added)
        | inr taken ↦ elim (Bool-cases (entry == p)) [
          | inl found ↦
              let here : Member s p = (place k passed short, eq_of_== _ p found, nz) in
              rw (taken, found) (false, s, refl, t, (refl, inr (inl here)))
          | inr other ↦ elim (Bool-cases (leb (length s.entries) s.num_entries)) [
            | inl full ↦
                rw (taken, other, full) (false, s, refl, t, (refl, inr (inr (ground arith))))
            | inr free ↦
                let next = wrap_next (length s.entries) (home s p) k (mod-lt _ room) short in
                rw (taken, other, free, next)
                  (probe-Adds f (k + 1) (omega arith)
                    (one_more k passed (ground arith) (ground arith)) (inl (ground arith)))
          ]
        ]
      ]

-- On a table the loop ends within as many turns as there are slots. The pointer is added if it is not
-- null, is not there, and there is room; otherwise the answer is `false` and nothing changes. The
-- table stays one.
pub add-Adds :
    (fuel p : ℕ) (s : PointerHashSet)
    → IsTable s
    → 0 < length s.entries
    → length s.entries ≤ fuel
    → (b : Bool) × (s' : PointerHashSet) × (add fuel p s ≡ ok (b, s')) × IsTable s' × Adds p s b s'
unfolding add
add-Adds fuel p s t room enough = elim (Bool-cases (p == 0)) [
  | inl null ↦ rw null (false, s, refl, t, (refl, inl (eq_of_== p 0 null)))
  | inr nz ↦
      let lt : home s p < length s.entries = mod-lt _ room in
      let start : wrap (length s.entries) (home s p + 0) ≡ home s p = ground arith in
      let (b, s', e, t', adds) =
        probe-Adds s t p (ground arith) room fuel 0 (omega arith) (λ j h. absurd (omega arith))
          (inr refl) in
      rw nz (b, s', ap (λ i. probe fuel p i s) (sym start) ∙ e, t', adds)
]

-- The empty table.
pub initialize-IsTable : (n : ℕ) → IsTable (initialize n)
initialize-IsTable n = record {
  counted = sym (occupied_empty n);
  unique = λ i j h e. absurd (h (get_or-replicate n i));
  reached = λ i h. absurd (h (get_or-replicate n i));
}
