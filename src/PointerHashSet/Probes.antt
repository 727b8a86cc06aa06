-- ===== src/PointerHashSet/Probes.antt =====
-- The table as the set of the pointers in it: the slots that a probe visits, and how many are taken.
use object_introspection.Prelude.{
  ℕ, zero, suc, ◌+◌, ◌-◌, ◌%◌, ◌≡◌, ◌≢◌, ◌<◌, refl, ◌∙◌, List, [], ◌∷◌, get_or, set, length,
  replicate, arith, if◌then◌else◌, ◌==◌, ltb, Bool-cases, inl, inr,
}
use native.Mathlib.Nat.{mod-eq_of_lt}
use object_introspection.PointerHashSet.{PointerHashSet, twang_mix64}

-- The slot at a place, or 0 behind the end.
abbrev pub slot : PointerHashSet → ℕ → ℕ
slot s i = get_or s.entries i 0

abbrev pub Member : PointerHashSet → ℕ → Type 0
Member s q = (i : ℕ) × (slot s i ≡ q) × (q ≢ 0)

-- A place counted on past the end of a table of `n` slots.
abbrev pub wrap : ℕ → ℕ → ℕ
wrap n i = if ltb i n then i else i - n

abbrev pub home : PointerHashSet → ℕ → ℕ
home s q = twang_mix64 q % length s.entries

pub occupied : List ℕ → ℕ
occupied [] = 0
occupied (x ∷ xs) = if x == 0 then occupied xs else suc (occupied xs)

-- A probe for `q` comes to the place `i` before it meets an empty slot.
abbrev pub Reaches : PointerHashSet → ℕ → ℕ → Type 0
Reaches s i q =
    (k : ℕ) × (k < length s.entries)
    × (wrap (length s.entries) (home s q + k) ≡ i)
    × ((j : ℕ) → j < k → slot s (wrap (length s.entries) (home s q + j)) ≢ 0)

-- A pointer in the table is where a probe from its home finds it before an empty slot.
pub record IsTable (s : PointerHashSet) : Type 0 where
  pub counted : s.num_entries ≡ occupied s.entries
  pub unique : (i j : ℕ) → slot s i ≢ 0 → slot s i ≡ slot s j → i ≡ j
  pub reached : (i : ℕ) → slot s i ≢ 0 → Reaches s i (slot s i)

pub occupied-set :
    (xs : List ℕ) (i v : ℕ)
    → i < length xs
    → get_or xs i 0 ≡ 0
    → v ≢ 0
    → occupied (set xs i v) ≡ suc (occupied xs)
unfolding occupied
occupied-set [] i v h e nz = elim h [ ]
occupied-set (x ∷ xs) zero v h e nz = ground arith
occupied-set (x ∷ xs) (suc i) v h e nz =
    let rest = occupied-set xs i v (omega arith) e nz in ground arith

-- A table with no empty slot is full.
pub occupied_full :
    (xs : List ℕ) → ((i : ℕ) → i < length xs → get_or xs i 0 ≢ 0) → occupied xs ≡ length xs
unfolding occupied
occupied_full [] h = refl
occupied_full (x ∷ xs) h =
    let x_nz : x ≢ 0 = h 0 (omega arith) in
    let rest = occupied_full xs (λ i lt. h (suc i) (omega arith)) in ground arith

pub occupied_empty : (n : ℕ) → occupied (replicate n 0) ≡ 0
unfolding occupied
occupied_empty zero = refl
occupied_empty (suc n) = occupied_empty n

succ_mod : (n x : ℕ) → x < n → (x + 1) % n ≡ wrap n (x + 1)
succ_mod n x p = elim (Bool-cases (ltb (x + 1) n)) [
  | inl low ↦ let lt : x + 1 < n = ground arith in rw low (mod-eq_of_lt lt)
  | inr end ↦ let e : n ≡ x + 1 = ground arith in rw end (grind arith)
]

-- The next slot of a probe, and all of them.
pub wrap_next : (n h k : ℕ) → h < n → k < n → (wrap n (h + k) + 1) % n ≡ wrap n (h + (k + 1))
wrap_next n h k p q = succ_mod n (wrap n (h + k)) (ground arith) ∙ ground arith

pub wrap_cover : (n h i : ℕ) → h < n → i < n → (j : ℕ) × (j < n) × (wrap n (h + j) ≡ i)
wrap_cover n h i p q = elim (Bool-cases (ltb i h)) [
  | inl below ↦ (i + n - h, ground arith, ground arith)
  | inr above ↦ (i - h, ground arith, ground arith)
]
