-- ===== src/PassManager/Runs.antt =====
-- A run of the passes: each one starts with a tracker in which nothing is visited.
use object_introspection.Prelude.{
  ℕ, zero, suc, ◌≡◌, refl, ap, ◌∙◌, fun_ext, List, [], ◌∷◌, map, Bool, false, Outcome, ok, ◌>>=◌,
}
use object_introspection.Store.{TypeGraph, size}
use object_introspection.Tracker.{NodeTracker, resized, fresh, holder_get_sized}
use object_introspection.PassManager.{
  Pass, run_pass, run_all, run, print, Config, transform_passes, transform,
}

-- The passes one after the other, each with a tracker of its own.
unfoldable pub run_fresh : List Pass → TypeGraph → Outcome TypeGraph
run_fresh [] g = ok g
run_fresh (pass ∷ passes) g = pass.fn g (fresh (size g)) >>= λ (g', _). run_fresh passes g'

resized-map : (n : ℕ) (xs : List Bool) → resized false n (map (λ _. false) xs) ≡ resized false n []
resized-map zero xs = refl
resized-map (suc n) [] = refl
resized-map (suc n) (x ∷ xs) = ap (λ l. false ∷ l) (resized-map n xs)

holder_get_sized-fresh : (n : ℕ) (t : NodeTracker) → holder_get_sized n t ≡ fresh n
unfolding holder_get_sized
holder_get_sized-fresh n t =
    ap (λ (xs : List Bool). let t : NodeTracker = record { visited = xs } in t)
      (resized-map n t.visited)

module _ (verbose : Bool) (printer : TypeGraph → NodeTracker → NodeTracker) where
  run_all-run_fresh :
      (passes : List Pass) (g : TypeGraph) (t : NodeTracker)
      → run_all verbose printer passes g t ≡ run_fresh passes g
  unfolding run_all run_fresh run_pass
  run_all-run_fresh [] g t = refl
  run_all-run_fresh (pass ∷ passes) g t =
      ap
        (λ t. pass.fn g t >>= λ (g', t').
          run_all verbose printer passes g' (print verbose printer g' t'))
        (holder_get_sized-fresh (size g) t)
      ∙ ap (λ (k : TypeGraph × NodeTracker → Outcome TypeGraph). pass.fn g (fresh (size g)) >>= k)
          (fun_ext (λ p. run_all-run_fresh passes p.0 (print verbose printer p.0 p.1)))

-- A transformation is its passes in order, each with a tracker in which nothing is visited and that has
-- the size of the graph: what an earlier pass or the printer left in the shared one has no effect.
pub transform-run_fresh :
    (c : Config) (verbose : Bool) (printer : TypeGraph → NodeTracker → NodeTracker) (g : TypeGraph)
    → transform c verbose printer g ≡ run_fresh (transform_passes c) g
unfolding transform run
transform-run_fresh c verbose printer g =
    run_all-run_fresh verbose printer (transform_passes c) g (print verbose printer g (fresh 0))
