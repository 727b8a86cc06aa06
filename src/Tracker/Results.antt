-- ===== src/Tracker/Results.antt =====
-- The cache of a mutating pass: what was stored for a node is found again, for no other node.
use object_introspection.Prelude.{
  ℕ, ap, sym, ◌∙◌, ◌≡◌, Option, none, some, if◌then◌else◌, ◌==◌, get_or,
}
use object_introspection.Types.{NodeId, Node, node_id}
use object_introspection.Tracker.{
  grown, ResultTracker, get_result, set_result, get_result_id, set_result_id,
}
use object_introspection.Tracker.Marks.{get_or-set, get_or-grown, lt-length-grown}

-- The results that a cache holds.
abbrev pub cached {ℓ} : {T : Type ℓ} → ResultTracker T → ℕ → Option T
cached t j = get_or t.results j none

pub cached-set_result_id {ℓ} :
    {T : Type ℓ} (i j : NodeId) (r : T) (t : ResultTracker T)
    → cached (set_result_id (some i) r t) j ≡ (if j == i then some r else cached t j)
unfolding set_result_id
cached-set_result_id i j r t =
    get_or-set (grown none i t.results) i (some r) j none (lt-length-grown none i t.results)
    ∙ ap (λ old. if j == i then some r else old) (get_or-grown none i t.results j)

pub get_result_id-cached {ℓ} :
    {T : Type ℓ} (i : NodeId) (t : ResultTracker T) → (get_result_id (some i) t).0 ≡ cached t i
unfolding get_result_id
get_result_id-cached i t = get_or-grown none i t.results i

-- After a result is stored for a node with an id, a lookup gives it at every node with that id, and
-- at every other node with an id what a lookup gave before.
pub get_result-set_result {ℓ} :
    {T : Type ℓ} (n m : Node) (i j : NodeId) (r : T) (t : ResultTracker T)
    → node_id n ≡ some i
    → node_id m ≡ some j
    → (get_result m (set_result n r t)).0 ≡ (if j == i then some r else (get_result m t).0)
unfolding get_result set_result
get_result-set_result n m i j r t e f =
    rw (e, f)
      (get_result_id-cached j (set_result_id (some i) r t)
        ∙ cached-set_result_id i j r t
        ∙ ap (λ old. if j == i then some r else old) (sym (get_result_id-cached j t)))
