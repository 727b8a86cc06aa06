-- ===== src/Examples/Pointers.antt =====
-- Pointers put into a table of three slots, until it is full.
use object_introspection.Prelude.{
  ℕ, ◌≡◌, refl, List, [], ◌∷◌, Bool, true, false, Outcome, ok, ◌>>=◌, arith,
}
use object_introspection.PointerHashSet.{PointerHashSet, initialize, add}
use object_introspection.PointerHashSet.Probes.{IsTable}
use object_introspection.PointerHashSet.Adds.{Adds, add-Adds, initialize-IsTable}

abbrev answers : List ℕ → PointerHashSet → Outcome (List Bool)
answers [] s = ok []
answers (p ∷ ps) s = add 3 p s >>= λ (b, s'). answers ps s' >>= λ bs. ok (b ∷ bs)

added_once :
    answers (4096 ∷ 0 ∷ 4096 ∷ 8192 ∷ 12288 ∷ 16384 ∷ 8192 ∷ []) (initialize 3)
    ≡ ok (true ∷ false ∷ false ∷ true ∷ true ∷ false ∷ false ∷ [])
unfolding add
added_once = refl

add-Adds_example :
    (b : Bool) × (s' : PointerHashSet) × (add 3 4096 (initialize 3) ≡ ok (b, s'))
    × IsTable s'
    × Adds 4096 (initialize 3) b s'
add-Adds_example = add-Adds 3 4096 (initialize 3) (initialize-IsTable 3) (omega arith) (omega arith)
