-- ===== src/Visitor/Unseen.antt =====
-- How many nodes of a graph a walk has not visited, by their addresses or by their ids.
use object_introspection.Prelude.{
  ℕ, zero, suc, ◌≡◌, List, ◌∷◌, true, false, arith, Bool, ◌||◌, Bool-cases, inl, inr, ◌==◌, ◌≤◌,
  ◌<◌, if◌then◌else◌, eq_of_==,
}
use object_introspection.Types.{Ref}
use object_introspection.Visitor.{contains}

-- Of the addresses below `n`, those that are not in the list.
pub unseen : ℕ → List Ref → ℕ
unseen zero xs = 0
unseen (suc n) xs = if contains xs n then unseen n xs else suc (unseen n xs)

pub unseen-bound : (n : ℕ) (xs : List Ref) → unseen n xs ≤ n
unfolding unseen
unseen-bound zero xs = omega arith
unseen-bound (suc n) xs = let rest = unseen-bound n xs in ground arith

pub unseen-le :
    (xs ys : List Ref)
    → ((x : Ref) → contains xs x ≡ true → contains ys x ≡ true)
    → (n : ℕ) → unseen n ys ≤ unseen n xs
unfolding unseen
unseen-le xs ys more zero = omega arith
unseen-le xs ys more (suc n) = let rest = unseen-le xs ys more n in let at = more n in ground arith

pub unseen-lt :
    (xs : List Ref) (r : Ref)
    → contains xs r ≡ false
    → (n : ℕ) → r < n
    → unseen n (r ∷ xs) < unseen n xs
unfolding unseen
unseen-lt xs r new zero h = elim h [ ]
unseen-lt xs r new (suc n) h = elim (Bool-cases (n == r)) [
  | inl same ↦
      let e : n ≡ r = eq_of_== n r same in
      let new_n : contains xs n ≡ false = rw e new in
      let rest = unseen-le xs (r ∷ xs) (λ x s. ground arith) n in ground arith
  | inr other ↦ let rest = unseen-lt xs r new n (ground arith) in ground arith
]

-- Of the numbers below `n`, how many are not in the set.
pub unset : ℕ → (ℕ → Bool) → ℕ
unset zero set = 0
unset (suc n) set = if set n then unset n set else suc (unset n set)

pub unset-le :
    (set set' : ℕ → Bool)
    → ((j : ℕ) → set j ≡ true → set' j ≡ true)
    → (n : ℕ) → unset n set' ≤ unset n set
unfolding unset
unset-le set set' more zero = omega arith
unset-le set set' more (suc n) =
    let rest = unset-le set set' more n in let at = more n in ground arith

pub unset-lt :
    (set set' : ℕ → Bool) (i : ℕ)
    → ((j : ℕ) → set' j ≡ (j == i || set j))
    → set i ≡ false
    → (n : ℕ) → i < n
    → unset n set' < unset n set
unfolding unset
unset-lt set set' i add new zero h = elim h [ ]
unset-lt set set' i add new (suc n) h = elim (Bool-cases (n == i)) [
  | inl same ↦
      let new_n : set n ≡ false = rw (eq_of_== n i same) new in
      let rest = unset-le set set' (λ j s. rw (add j) (ground arith)) n in
      let at = add n in ground arith
  | inr other ↦
      let rest = unset-lt set set' i add new n (ground arith) in let at = add n in ground arith
]

pub unset-bound : (n : ℕ) (set : ℕ → Bool) → unset n set ≤ n
unfolding unset
unset-bound zero set = omega arith
unset-bound (suc n) set = let rest = unset-bound n set in ground arith
