-- ===== src/Visitor/Termination.antt =====
-- A walk ends: where entering a new node lowers a measure, that measure is fuel enough.
use object_introspection.Prelude.{
  ℕ, zero, suc, ◌≤◌, ◌<◌, ◌≡◌, List, [], ◌∷◌, Bool, false, Outcome, Error, refl, ok, err,
  out_of_fuel, ◌>>=◌, for_each, arith, Bool-cases, inl, inr, ◌⊎◌,
}
use object_introspection.Types.{Ref}
use object_introspection.Visitor.{accept_with}

module _ {S : Type 0} (Fine : S → Type 0) (measure : S → ℕ) where
  -- The run returned a fine state of no higher measure, or raised an error: its fuel did not run out.
  abbrev pub Ends : ℕ → Outcome S → Type 0
  Ends n (ok s) = Fine s × measure s ≤ n
  Ends n (err e) = Unit
  Ends n out_of_fuel = ⊥

  -- Every run from a fine state of at most that measure ends.
  abbrev pub EndsBelow : ℕ → (S → Outcome S) → Type 0
  EndsBelow n m = (s : S) → Fine s → measure s ≤ n → Ends (measure s) (m s)

  pub Ends-cases :
      (n : ℕ) (o : Outcome S) → Ends n o → ((s : S) × (o ≡ ok s)) ⊎ ((e : Error) × (o ≡ err e))
  Ends-cases n (ok s) h = inl (s, refl)
  Ends-cases n (err e) h = inr (e, refl)
  Ends-cases n out_of_fuel h = absurd h

  pub Ends-weaken : (n k : ℕ) (o : Outcome S) → n ≤ k → Ends n o → Ends k o
  Ends-weaken n k (ok s) h e = (e.0, omega (arith, e.1))
  Ends-weaken n k (err _) h e = tt
  Ends-weaken n k out_of_fuel h e = absurd e

  pub Ends-bind :
      (n : ℕ) (o : Outcome S) (next : S → Outcome S)
      → Ends n o
      → EndsBelow n next
      → Ends n (o >>= next)
  Ends-bind n (ok s) next e below = Ends-weaken (measure s) n (next s) e.1 (below s e.0 e.1)
  Ends-bind n (err _) next e below = tt
  Ends-bind n out_of_fuel next e below = absurd e

  pub EndsBelow-for_each :
      {X : Type 0} (n : ℕ) (body : X → S → Outcome S)
      → ((x : X) → EndsBelow n (body x))
      → (xs : List X) → EndsBelow n (for_each body xs)
  EndsBelow-for_each n body each [] s fine h = (fine, omega arith)
  EndsBelow-for_each n body each (x ∷ xs) s fine h =
      Ends-bind (measure s) (body x s) (for_each body xs) (each x s fine h)
        (λ t fine' k. EndsBelow-for_each n body each xs t fine' (omega arith))

  -- If `enter` never raises the measure, lowers it at a node it has not seen unless the visit of that
  -- node ends at once, and `visit` ends wherever the calls that it makes end, then `accept` ends with
  -- more fuel than the measure.
  pub EndsBelow-accept_with :
      (enter : Ref → S → Bool × S) (visit : (Ref → S → Outcome S) → Ref → S → Outcome S)
      → ((r : Ref) (s : S) → Fine s → Ends (measure s) (ok (enter r s).1))
      → ((r : Ref) (s : S)
          → Fine s
          → (enter r s).0 ≡ false
          → (measure (enter r s).1 < measure s)
            ⊎ ((accept : Ref → S → Outcome S) → Ends (measure s) (visit accept r (enter r s).1)))
      → ((accept : Ref → S → Outcome S) (n : ℕ) (r : Ref)
          → ((x : Ref) → EndsBelow n (accept x))
          → EndsBelow n (visit accept r))
      → (f n : ℕ) → n < f
      → (r : Ref) → EndsBelow n (accept_with enter visit f r)
  unfolding accept_with
  EndsBelow-accept_with enter visit kept falls ends zero n h r s fine m = elim h [ ]
  EndsBelow-accept_with enter visit kept falls ends (suc f) n h r s fine m =
      elim (Bool-cases (enter r s).0) [
        | inl seen ↦ rw seen (kept r s fine)
        | inr new ↦
            let s' = (enter r s).1 in
            let fine' = kept r s fine in
            elim (falls r s fine new) [
              | inr now ↦ rw new (now (accept_with enter visit f))
              | inl low ↦ rw new (
                  Ends-weaken (measure s') (measure s) (visit (accept_with enter visit f) r s')
                    fine'.1
                    (ends (accept_with enter visit f) (measure s') r
                      (λ x.
                        EndsBelow-accept_with enter visit kept falls ends f (measure s')
                          (omega arith) x)
                      s' fine'.0 (omega arith)))
            ]
      ]
