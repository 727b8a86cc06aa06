-- ===== src/Flattener/Order.antt =====
-- The merged members are sorted by offset, as `Class::members` has to be.
use object_introspection.Prelude.{
  ℕ, ◌≤◌, ◌<◌, ◌≡◌, refl, ◌∙◌, List, [], ◌∷◌, ◌++◌, ok, ltb, Bool-cases, inl, inr, ◌⊎◌, All, arith,
}
use object_introspection.Types.{Member, Parent}
use object_introspection.Store.{TypeGraph}
use object_introspection.Flattener.{flatten_parent, flatten_parents, merge}
use object_introspection.Flattener.Merge.{merge-true, merge-false}

-- Offsets that do not fall, from `lo` on.
abbrev pub SortedFrom : ℕ → List Member → Type 0
SortedFrom lo [] = Unit
SortedFrom lo (m ∷ ms) = (lo ≤ m.bit_offset) × SortedFrom m.bit_offset ms

-- The parents in the order of their offsets: each is flattened without an error, into members that
-- are sorted and lie between its offset and `extent`, where the next parent may begin.
abbrev pub Laid : ℕ → TypeGraph → (Parent → ℕ) → ℕ → List Parent → Type 0
Laid depth g extent lo [] = Unit
Laid depth g extent lo (p ∷ ps) =
    (lo ≤ p.bit_offset)
    × (p.bit_offset ≤ extent p)
    × ((block : List Member) × (flatten_parent depth g p ≡ ok block)
        × SortedFrom p.bit_offset block
        × All (λ m. m.bit_offset ≤ extent p) block)
    × Laid depth g extent (extent p) ps

-- No own member begins inside a parent.
abbrev pub IsClear : (Parent → ℕ) → List Parent → Member → Type 0
IsClear extent ps m = All (λ p. (m.bit_offset < p.bit_offset) ⊎ (extent p ≤ m.bit_offset)) ps

SortedFrom-weaken :
    (lo lo' : ℕ) (ms : List Member) → lo' ≤ lo → SortedFrom lo ms → SortedFrom lo' ms
SortedFrom-weaken lo lo' [] h s = tt
SortedFrom-weaken lo lo' (m ∷ ms) h s = (omega arith, s.1)

SortedFrom-append :
    (lo hi : ℕ) (block out : List Member)
    → lo ≤ hi
    → SortedFrom lo block
    → All (λ m. m.bit_offset ≤ hi) block
    → SortedFrom hi out
    → SortedFrom lo (block ++ out)
SortedFrom-append lo hi [] out h s b k = SortedFrom-weaken hi lo out h k
SortedFrom-append lo hi (m ∷ block) out h s b k =
    (s.0, SortedFrom-append m.bit_offset hi block out b.0 s.1 b.1 k)

IsClear-tail :
    (extent : Parent → ℕ) (p : Parent) (ps : List Parent) (ms : List Member)
    → All (IsClear extent (p ∷ ps)) ms
    → All (IsClear extent ps) ms
IsClear-tail extent p ps [] h = tt
IsClear-tail extent p ps (m ∷ ms) h = (h.0.1, IsClear-tail extent p ps ms h.1)

module _ (depth : ℕ) (g : TypeGraph) (extent : Parent → ℕ) where
  parents_sorted :
      (lo : ℕ) (ps : List Parent)
      → Laid depth g extent lo ps
      → (out : List Member) × (flatten_parents depth g ps ≡ ok out) × SortedFrom lo out
  unfolding flatten_parents
  parents_sorted lo [] h = ([], refl, tt)
  parents_sorted lo (p ∷ ps) (h, k, (block, e, s, b), rest) =
      let (out, e', s') = parents_sorted (extent p) ps rest in
      (
        block ++ out,
        rw (e, e'),
        SortedFrom-append lo (extent p) block out (omega arith)
            (SortedFrom-weaken p.bit_offset lo block h s) b s',
      )

  -- The merge returns, and its result is sorted by offset, on these conditions: the own members are
  -- sorted by offset; each parent is flattened without an error, into members that are sorted by
  -- offset and begin between the offset of the parent and its extent; each parent begins at or
  -- behind the extent of the one before; and no own member begins inside a parent, that is, at or
  -- behind its offset and before its extent.
  pub merge-SortedFrom :
      (lo : ℕ) (ms : List Member) (ps : List Parent)
      → SortedFrom lo ms
      → Laid depth g extent lo ps
      → All (IsClear extent ps) ms
      → (out : List Member) × (merge depth g ms ps ≡ ok out) × SortedFrom lo out
  unfolding merge
  merge-SortedFrom lo [] ps s laid clear = parents_sorted lo ps laid
  merge-SortedFrom lo (m ∷ ms) [] s laid clear = (m ∷ ms, refl, s)
  merge-SortedFrom lo (m ∷ ms) (p ∷ ps) s laid clear =
      elim (Bool-cases (ltb m.bit_offset p.bit_offset)) [
        | inl before ↦
            let (out, e, k) =
              merge-SortedFrom m.bit_offset ms (p ∷ ps) s.1 (ground arith, laid.1, laid.2, laid.3)
                clear.1 in
            (m ∷ out, merge-true depth g m ms p ps before ∙ rw e, (s.0, k))
        | inr behind ↦
            let (out, e, k) =
              merge-SortedFrom (extent p) (m ∷ ms) ps (ground (arith, clear.0.0), s.1) laid.3
                (clear.0.1, IsClear-tail extent p ps ms clear.1) in
            let (block, e', b, top) = laid.2 in
            (
              block ++ out,
              merge-false depth g m ms p ps behind ∙ rw (e', e),
              SortedFrom-append lo (extent p) block out (omega (arith, laid.0, laid.1))
                  (SortedFrom-weaken p.bit_offset lo block laid.0 b) top k,
            )
      ]
