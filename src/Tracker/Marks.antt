-- ===== src/Tracker/Marks.antt =====
-- A tracker is the set of the ids visited: `visit`, `reset` and `resize` refine operations on sets.
use object_introspection.Prelude.{
  fun_ext, Bool-cases, inl, inr, ℕ, zero, suc, ◌+◌, ◌≡◌, refl, ◌∙◌, ◌<◌, ◌≤◌, List, [], ◌∷◌, map,
  Option, none, some, Bool, true, false, leb, ltb, length, get_or, set, if◌then◌else◌, ◌==◌, ◌&&◌,
  ◌||◌, arith, ap,
}
use object_introspection.Types.{NodeId, Node, node_id}
use object_introspection.Tracker.{
  resized, grown, NodeTracker, visit, visit_id, reset, resize, holder_get_sized,
}

pub get_or-resized {ℓ} :
    {A : Type ℓ} (fill : A) (n : ℕ) (xs : List A) (j : ℕ)
    → get_or (resized fill n xs) j fill ≡ (if ltb j n then get_or xs j fill else fill)
get_or-resized fill zero xs j = ground arith
get_or-resized fill (suc n) [] zero = ground arith
get_or-resized fill (suc n) [] (suc j) = ground (arith, get_or-resized fill n [] j)
get_or-resized fill (suc n) (x ∷ xs) zero = ground arith
get_or-resized fill (suc n) (x ∷ xs) (suc j) = ground (arith, get_or-resized fill n xs j)

pub length-resized {ℓ} :
    {A : Type ℓ} (fill : A) (n : ℕ) (xs : List A) → length (resized fill n xs) ≡ n
length-resized fill zero xs = refl
length-resized fill (suc n) [] = ap suc (length-resized fill n [])
length-resized fill (suc n) (x ∷ xs) = ap suc (length-resized fill n xs)

pub get_or_past {ℓ} :
    {A : Type ℓ} (xs : List A) (j : ℕ) (fill : A) → length xs ≤ j → get_or xs j fill ≡ fill
get_or_past [] j fill h = refl
get_or_past (x ∷ xs) zero fill h = absurd (omega arith)
get_or_past (x ∷ xs) (suc j) fill h = get_or_past xs j fill (omega arith)

-- Growing changes no item that is read with the default, and makes the index valid.
pub get_or-grown {ℓ} :
    {A : Type ℓ} (fill : A) (i : ℕ) (xs : List A) (j : ℕ)
    → get_or (grown fill i xs) j fill ≡ get_or xs j fill
get_or-grown fill i xs j = elim (Bool-cases (leb (length xs) i)) [
  | inr fits ↦ rw fits
  | inl short ↦
      rw (short, get_or-resized fill (i + 1) xs j)
        (elim (Bool-cases (ltb j (i + 1))) [
          | inl low ↦ rw low
          | inr high ↦ rw (high, get_or_past xs j fill (ground arith))
        ])
]

pub lt-length-grown {ℓ} :
    {A : Type ℓ} (fill : A) (i : ℕ) (xs : List A) → i < length (grown fill i xs)
lt-length-grown fill i xs = elim (Bool-cases (leb (length xs) i)) [
  | inl short ↦ rw (short, length-resized fill (i + 1) xs) (omega arith)
  | inr fits ↦ rw fits (ground arith)
]

pub get_or-set {ℓ} :
    {A : Type ℓ} (xs : List A) (i : ℕ) (v : A) (j : ℕ) (fill : A)
    → i < length xs
    → get_or (set xs i v) j fill ≡ (if j == i then v else get_or xs j fill)
get_or-set [] i v j fill h = elim h [ ]
get_or-set (x ∷ xs) zero v zero fill h = ground arith
get_or-set (x ∷ xs) zero v (suc j) fill h = ground arith
get_or-set (x ∷ xs) (suc i) v zero fill h = ground arith
get_or-set (x ∷ xs) (suc i) v (suc j) fill h = ground (arith, get_or-set xs i v j fill)

get_or-map-false : (xs : List Bool) (j : ℕ) → get_or (map (λ _. false) xs) j false ≡ false
get_or-map-false [] j = refl
get_or-map-false (x ∷ xs) zero = refl
get_or-map-false (x ∷ xs) (suc j) = get_or-map-false xs j

-- The ids that a tracker holds as visited.
abbrev pub marked : NodeTracker → ℕ → Bool
marked t j = get_or t.visited j false

-- After `visit` the node's own id is marked, and no other mark has changed.
pub marked-visit_id :
    (i : NodeId) (t : NodeTracker) (j : ℕ)
    → marked (visit_id (some i) t).1 j ≡ (j == i || marked t j)
unfolding visit_id
marked-visit_id i t j = ground (
  arith,
  get_or-set (grown false i t.visited) i true j false,
  lt-length-grown false i t.visited,
  get_or-grown false i t.visited j,
)

pub visit_id-marked : (i : NodeId) (t : NodeTracker) → (visit_id (some i) t).0 ≡ marked t i
unfolding visit_id
visit_id-marked i t = get_or-grown false i t.visited i

-- What a pass does with its tracker.
pub data Command : Type 0 where
  visit_node : Node → Command
  reset_all : Command
  resize_to : ℕ → Command

unfoldable pub apply : Command → NodeTracker → NodeTracker
apply (visit_node n) t = (visit n t).1
apply reset_all t = reset t
apply (resize_to n) t = resize n t

unfoldable pub run : List Command → NodeTracker → NodeTracker
run [] t = t
run (c ∷ cs) t = run cs (apply c t)

-- The same on a set of ids: a visit adds the id of a node that has one, a reset empties the set, and
-- `resize n` forgets the ids from n on.
abbrev pub step_set : Command → (ℕ → Bool) → ℕ → Bool
step_set (visit_node n) seen j = elim (node_id n) [ none ↦ seen j | some i ↦ j == i || seen j ]
step_set reset_all seen j = false
step_set (resize_to n) seen j = ltb j n && seen j

abbrev pub run_set : List Command → (ℕ → Bool) → ℕ → Bool
run_set [] seen = seen
run_set (c ∷ cs) seen = run_set cs (step_set c seen)

visit_id_refines :
    (o : Option NodeId) (t : NodeTracker) (j : ℕ)
    → marked (visit_id o t).1 j ≡ (elim o [ none ↦ marked t j | some i ↦ j == i || marked t j ])
unfolding visit_id
visit_id_refines none t j = refl
visit_id_refines (some i) t j = marked-visit_id i t j

-- One operation of the tracker is the operation on sets.
apply_refines :
    (c : Command) (t : NodeTracker) (j : ℕ) → marked (apply c t) j ≡ step_set c (marked t) j
unfolding apply visit reset resize
apply_refines (visit_node n) t j = visit_id_refines (node_id n) t j
apply_refines reset_all t j = get_or-map-false t.visited j
apply_refines (resize_to n) t j = ground (arith, get_or-resized false n t.visited j)

run_refines :
    (cs : List Command) (t : NodeTracker) (j : ℕ) → marked (run cs t) j ≡ run_set cs (marked t) j
unfolding run
run_refines [] t j = refl
run_refines (c ∷ cs) t j =
    run_refines cs (apply c t) j ∙ ap (λ seen. run_set cs seen j) (fun_ext (apply_refines c t))

-- After any sequence of visits, resets and resizes, a visit of a node with an id returns whether
-- the set that the sequence leaves has that id.
pub visit-run :
    (cs : List Command) (t : NodeTracker) (n : Node) (i : NodeId)
    → node_id n ≡ some i
    → (visit n (run cs t)).0 ≡ run_set cs (marked t) i
unfolding visit
visit-run cs t n i e = rw e (visit_id-marked i (run cs t) ∙ run_refines cs t i)

-- A tracker from a holder is empty, whatever was visited before, and has the size asked for.
pub holder_get_sized_empty :
    (n : ℕ) (t : NodeTracker)
    → (length (holder_get_sized n t).visited ≡ n)
      × ((j : ℕ) → marked (holder_get_sized n t) j ≡ false)
unfolding holder_get_sized
holder_get_sized_empty n t = (
  length-resized false n (map (λ _. false) t.visited),
  λ j.
      ground (
        arith,
        get_or-resized false n (map (λ _. false) t.visited) j,
        get_or-map-false t.visited j,
      ),
)
