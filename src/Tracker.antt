-- ===== src/Tracker.antt =====
-- oi/type_graph/NodeTracker.h: which nodes a pass has seen, by their ids, and cached results.
pub mod Marks
pub mod Results
use object_introspection.Prelude.{
  ℕ, zero, suc, ◌+◌, ◌-◌, List, [], ◌∷◌, ◌++◌, map, Option, none, some, Bool, true, false, leb,
  length, get_or, set, if◌then◌else◌,
}
use object_introspection.Types.{NodeId, Node, node_id}

-- `std::vector::resize(n)`: cut off, or filled up with `fill`.
abbrev pub resized {ℓ} : {A : Type ℓ} → A → ℕ → List A → List A
resized fill zero xs = []
resized fill (suc n) [] = fill ∷ resized fill n []
resized fill (suc n) (x ∷ xs) = x ∷ resized fill n xs

-- The resize that makes an index valid.
abbrev pub grown {ℓ} : {A : Type ℓ} → A → ℕ → List A → List A
grown fill i xs = if leb (length xs) i then resized fill (i + 1) xs else xs

pub record NodeTracker : Type 0 where
  pub visited : List Bool

abbrev pub fresh : ℕ → NodeTracker
fresh size = record { visited = resized false size [] }

-- `visit`, given the node's id.
unfoldable pub visit_id : Option NodeId → NodeTracker → Bool × NodeTracker
visit_id none t = (false, t)
visit_id (some i) t =
    let visited = grown false i t.visited in
    (get_or visited i false, record { visited = set visited i true })

unfoldable pub visit : Node → NodeTracker → Bool × NodeTracker
unfolding visit_id
visit n t = visit_id (node_id n) t

unfoldable pub reset : NodeTracker → NodeTracker
reset t = record { visited = map (λ _. false) t.visited }

unfoldable pub resize : ℕ → NodeTracker → NodeTracker
resize n t = record { visited = resized false n t.visited }

-- `NodeTrackerHolder::get()` and `get(size)`.
unfoldable pub holder_get : NodeTracker → NodeTracker
unfolding reset
holder_get t = reset t

unfoldable pub holder_get_sized : ℕ → NodeTracker → NodeTracker
unfolding reset resize
holder_get_sized n t = resize n (reset t)

-- `ResultTracker<T>`; `none` is the null pointer.
pub record ResultTracker {ℓ} (T : Type ℓ) : Type ℓ where
  pub results : List (Option T)

module _ {ℓ} {T : Type ℓ} where
  -- `get` and `set`, given the node's id.
  unfoldable pub get_result_id : Option NodeId → ResultTracker T → Option T × ResultTracker T
  get_result_id none t = (none, t)
  get_result_id (some i) t =
      let results = grown none i t.results in (get_or results i none, record { results = results })

  unfoldable pub set_result_id : Option NodeId → T → ResultTracker T → ResultTracker T
  set_result_id none r t = t
  set_result_id (some i) r t = record { results = set (grown none i t.results) i (some r) }

  unfoldable pub get_result : Node → ResultTracker T → Option T × ResultTracker T
  unfolding get_result_id
  get_result n t = get_result_id (node_id n) t

  unfoldable pub set_result : Node → T → ResultTracker T → ResultTracker T
  unfolding set_result_id
  set_result n r t = set_result_id (node_id n) r t
