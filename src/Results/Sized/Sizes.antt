-- ===== src/Results/Sized/Sizes.antt =====
-- The sizes that the iterator gives are those of the subtrees.
use object_introspection.Prelude.{
  ℕ, zero, suc, ◌+◌, ◌%◌, ◌^◌, ◌<◌, ◌≡◌, refl, ◌∙◌, ap, List, [], ◌∷◌, some, none, Outcome, ok,
  ◌>>=◌, arith, true, false, Bool-cases, inl, inr, ltb, ◌==◌, length, get_elem?, add_u64, sub_u64,
}
use object_introspection.Results.{Element}
use object_introspection.Results.Sized.{
  SizeHelper, SizedElement, SizedIterator, depth_of, iterator, less_before, forward, increment,
  collect, sized_result,
}
use object_introspection.Results.Sized.Helpers.{deeper, helpers_from}
use object_introspection.Results.Sized.Loop.{size_helpers-eq}

unfoldable pub total : List Element → ℕ
total [] = 0
total (e ∷ es) = e.exclusive_size + total es

-- The element and all that follow it and are deeper, up to the first that is not.
unfoldable pub subtree_size : Element → List Element → ℕ
unfolding total deeper
subtree_size e es = total (e ∷ deeper (depth_of e) es) % 2 ^ 64

unfoldable pub sizes_of : List Element → List SizedElement
unfolding subtree_size
sizes_of [] = []
sizes_of (e ∷ es) = record { inner = e; size = subtree_size e es } ∷ sizes_of es

size_at :
    (d k size : ℕ) (e : Element) (es : List Element)
    → (h : SizeHelper) × (get_elem? (helpers_from k size (e ∷ es)) (length (deeper d es)) ≡ some h)
      × (h.size ≡ (size + total (e ∷ deeper d es)) % 2 ^ 64)
unfolding helpers_from deeper total
size_at d k size e [] = (_, refl, omega arith)
size_at d k size e (e' ∷ es) = elim (Bool-cases (ltb d (depth_of e'))) [
  | inl below ↦
      let (h, found, same) = size_at d (suc k) (add_u64 size e.exclusive_size) e' es in
      rw below (h, found, omega (arith, same))
  | inr above ↦ rw above (_, refl, omega arith)
]

length-helpers_from : (k size : ℕ) (es : List Element) → length (helpers_from k size es) ≡ length es
unfolding helpers_from
length-helpers_from k size [] = refl
length-helpers_from k size (e ∷ es) =
    ap suc (length-helpers_from (suc k) (add_u64 size e.exclusive_size) es)

-- The helpers from the index `count` on are those of `rest`, and those before add up to `size`.
record IsAt (hs : List SizeHelper) (count size : ℕ) (rest : List Element) : Type 0 where
  found : (j : ℕ) → get_elem? hs (count + j) ≡ get_elem? (helpers_from count size rest) j
  counted : length hs ≡ count + length rest
  before : (x : ℕ) → x < 2 ^ 64 → less_before hs count x ≡ ok (sub_u64 x size)
  small : size < 2 ^ 64

IsAt-start : (es : List Element) → IsAt (helpers_from 0 0 es) 0 0 es
unfolding less_before
IsAt-start es = record {
  found = λ j. ap (get_elem? (helpers_from 0 0 es)) (let e : 0 + j ≡ j = omega arith in e);
  counted = omega (arith, length-helpers_from 0 0 es);
  before = λ x h.
      ap (λ (n : ℕ). let o : Outcome ℕ = ok n in o) (let e : x ≡ sub_u64 x 0 = omega arith in e);
  small = omega arith;
}

IsAt-next :
    (hs : List SizeHelper) (count size : ℕ) (e : Element) (es : List Element)
    → IsAt hs count size (e ∷ es)
    → IsAt hs (suc count) (add_u64 size e.exclusive_size) es
unfolding less_before helpers_from
IsAt-next hs count size e es at = record {
  found = λ j.
      ap (get_elem? hs) (let q : suc count + j ≡ count + suc j = omega arith in q)
      ∙ at.found (suc j);
  counted = omega (arith, at.counted);
  before = λ x h.
      let here : get_elem? hs count
          ≡ some (record {
            size = add_u64 size e.exclusive_size;
            last_child = count + length (deeper (depth_of e) es);
          }) =
        ap (get_elem? hs) (let q : count ≡ count + 0 = omega arith in q) ∙ at.found 0 in
      rw here;
  small = omega arith;
}

forward_lem :
    (hs : List SizeHelper) (count size : ℕ) (e : Element) (es : List Element) (it : SizedIterator)
    → IsAt hs count size (e ∷ es)
    → it.helpers ≡ hs
    → it.count ≡ count
    → forward (e ∷ es) it
      ≡ ok (record {
        rest = e ∷ es;
        helpers = hs;
        count = suc count;
        next = some (record { inner = e; size = subtree_size e es });
      })
unfolding forward helpers_from subtree_size
forward_lem hs count size e es it at eh ec =
    let n = length (deeper (depth_of e) es) in
    let (h, found, same) = size_at (depth_of e) count size e es in
    let here : get_elem? hs count
        ≡ some (record { size = add_u64 size e.exclusive_size; last_child = count + n }) =
      ap (get_elem? hs) (let q : count ≡ count + 0 = omega arith in q) ∙ at.found 0 in
    let there : get_elem? hs (count + n) ≡ some h = at.found n ∙ found in
    let less : less_before hs count h.size ≡ ok (sub_u64 h.size size) =
      at.before h.size (omega (arith, same)) in
    let sum = total (e ∷ deeper (depth_of e) es) in
    let result : sub_u64 h.size size ≡ sum % 2 ^ 64 = omega (arith, same, at.small) in
    rw (eh, ec, here, there, less, result) refl

-- From an iterator that has given `x` for the element `e`.
abbrev given : List SizeHelper → ℕ → Element → List Element → SizedElement → SizedIterator
given hs count e es x = record { rest = e ∷ es; helpers = hs; count = suc count; next = some x }

increment_last :
    (hs : List SizeHelper) (count size : ℕ) (e : Element) (x : SizedElement)
    → IsAt hs (suc count) size []
    → increment (given hs count e [] x)
      ≡ ok (record { rest = []; helpers = hs; count = suc count; next = none })
unfolding increment
increment_last hs count size e x at =
    let started : (suc count == 0) ≡ false = ground arith in
    let all : (suc count == length hs) ≡ true = let c = at.counted in ground arith in
    rw (started, all) refl

increment_more :
    (hs : List SizeHelper) (count size : ℕ) (e e' : Element) (es : List Element) (x : SizedElement)
    → IsAt hs (suc count) size (e' ∷ es)
    → increment (given hs count e (e' ∷ es) x)
      ≡ ok (given hs (suc count) e' es (record { inner = e'; size = subtree_size e' es }))
unfolding increment
increment_more hs count size e e' es x at =
    let started : (suc count == 0) ≡ false = ground arith in
    let not_all : (suc count == length hs) ≡ false = let c = at.counted in ground arith in
    rw (started, not_all)
      (forward_lem hs (suc count) size e' es (given hs count e (e' ∷ es) x) at refl refl)

collects :
    (f : ℕ) (hs : List SizeHelper) (count size : ℕ) (e : Element) (es : List Element)
    (x : SizedElement)
    → IsAt hs (suc count) size es
    → suc (length es) < f
    → collect f (given hs count e es x) ≡ ok (x ∷ sizes_of es)
unfolding collect sizes_of
collects zero hs count size e es x at h = elim h [ ]
collects (suc zero) hs count size e es x at h = absurd (omega arith)
collects (suc (suc f)) hs count size e [] x at h = rw (increment_last hs count size e x at) refl
collects (suc (suc f)) hs count size e (e' ∷ es) x at h =
    rw
      (
        increment_more hs count size e e' es x at,
        collects (suc f) hs (suc count) (add_u64 size e'.exclusive_size) e' es
            (record { inner = e'; size = subtree_size e' es })
            (IsAt-next hs (suc count) size e' es at) (omega arith),
      )
      refl

abbrev begun : List Element → SizedIterator
begun es = record { rest = es; helpers = helpers_from 0 0 es; count = 0; next = none }

iterator-eq : (es : List Element) → iterator es ≡ begun es
unfolding iterator
iterator-eq es =
    ap
      (λ hs.
        let it : SizedIterator = record { rest = es; helpers = hs; count = 0; next = none } in it)
      (size_helpers-eq es)

increment_first :
    (e : Element) (es : List Element)
    → increment (begun (e ∷ es))
      ≡ ok (
          given (helpers_from 0 0 (e ∷ es)) 0 e es (record { inner = e; size = subtree_size e es }))
unfolding increment
increment_first e es =
    let not_all : (0 == length (helpers_from 0 0 (e ∷ es))) ≡ false =
      let c = length-helpers_from 0 0 (e ∷ es) in ground arith in
    rw not_all (
      forward_lem (helpers_from 0 0 (e ∷ es)) 0 0 e es (begun (e ∷ es)) (IsAt-start (e ∷ es)) refl
        refl)

none_given : (f : ℕ) → (increment (begun []) >>= collect (suc f)) ≡ ok (sizes_of [])
unfolding increment collect sizes_of helpers_from
none_given f = refl

sizes_cons :
    (e : Element) (es : List Element)
    → Path
        (Outcome (List SizedElement))
        (ok (record { inner = e; size = subtree_size e es } ∷ sizes_of es))
        (ok (sizes_of (e ∷ es)))
unfolding sizes_of
sizes_cons e es = refl

collects_begun :
    (f : ℕ) (es : List Element)
    → length es < f
    → (increment (begun es) >>= collect f) ≡ ok (sizes_of es)
collects_begun zero es h = elim h [ ]
collects_begun (suc f) [] h = none_given f
collects_begun (suc f) (e ∷ es) h =
    let hs = helpers_from 0 0 (e ∷ es) in
    let x : SizedElement = record { inner = e; size = subtree_size e es } in
    rw (increment_first e es) (
      collects (suc f) hs 0 (add_u64 0 e.exclusive_size) e es x
        (IsAt-next hs 0 0 e es (IsAt-start (e ∷ es))) (omega arith)
      ∙ sizes_cons e es)

-- With more turns than there are elements, the loop over the result gives each element with the
-- size of its subtree: its own exclusive size and those of the elements that follow and are deeper,
-- up to the first that is not, added modulo 2 ^ 64.
pub sized_result-eq :
    (f : ℕ) (es : List Element) → length es < f → sized_result f es ≡ ok (sizes_of es)
unfolding sized_result
sized_result-eq f es h =
    ap (λ it. increment it >>= collect f) (iterator-eq es) ∙ collects_begun f es h
