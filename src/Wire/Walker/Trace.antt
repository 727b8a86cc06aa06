-- ===== src/Wire/Walker/Trace.antt =====
-- The walker over the words of a typed value yields the elements of the value, in order.
use mathlib.Core.List.{append_assoc, append-nil}
use object_introspection.Prelude.{
  ℕ, zero, suc, ◌+◌, ◌<◌, ◌≤◌, ◌≡◌, refl, sym, ap, ◌∙◌, List, [], ◌∷◌, ◌++◌, Option, none, some,
  Outcome, ok, arith, replicate,
}
use object_introspection.Wire.{
  Dynamic, Value, unit_value, int_value, pair_value, sum_value, list_value, Values, none_left, next,
  length_values, append_values, Typed, typed_unit, typed_int, typed_pair, typed_sum, typed_list,
  TypedEach, each_none, each_next,
}
use object_introspection.Wire.Walker.{
  Element, var_int_element, sum_index, list_length, Walker, start, push_variant, advance, drain,
}

unfoldable mutual
  -- The words of a value.
  pub words : Value → List ℕ
  words unit_value = []
  words (int_value n) = n ∷ []
  words (pair_value v w) = words v ++ words w
  words (sum_value i v) = i ∷ words v
  words (list_value vs) = length_values vs ∷ words_each vs

  pub words_each : Values → List ℕ
  words_each none_left = []
  words_each (next v vs) = words v ++ words_each vs

unfoldable mutual
  -- The elements that say what each word is.
  pub trace : Value → List Element
  trace unit_value = []
  trace (int_value n) = var_int_element n ∷ []
  trace (pair_value v w) = trace v ++ trace w
  trace (sum_value i v) = sum_index i ∷ trace v
  trace (list_value vs) = list_length (length_values vs) ∷ trace_each vs

  pub trace_each : Values → List Element
  trace_each none_left = []
  trace_each (next v vs) = trace v ++ trace_each vs

unfoldable mutual
  -- The number of nodes of a value, which is fuel enough.
  pub weight : Value → ℕ
  weight unit_value = 1
  weight (int_value n) = 1
  weight (pair_value v w) = suc (weight v + weight w)
  weight (sum_value i v) = suc (weight v)
  weight (list_value vs) = suc (weight_each vs)

  pub weight_each : Values → ℕ
  weight_each none_left = 0
  weight_each (next v vs) = weight v + weight_each vs

-- Values that wait on the stack, one for each type there.
data Stacked : Values → List Dynamic → Type 0 where
  empty : Stacked none_left []
  on_top :
      {v : Value} {vs : Values} {t : Dynamic} {stack : List Dynamic}
      → Typed v t
      → Stacked vs stack
      → Stacked (next v vs) (t ∷ stack)

Stacked-each :
    {vs ws : Values} {t : Dynamic} {stack : List Dynamic}
    → TypedEach vs t
    → Stacked ws stack
    → Stacked (append_values vs ws) (replicate (length_values vs) t ++ stack)
unfolding append_values length_values
Stacked-each (each_none t) s = s
Stacked-each (each_next p ps) s = on_top p (Stacked-each ps s)

words_each-append :
    (vs ws : Values) → words_each (append_values vs ws) ≡ words_each vs ++ words_each ws
unfolding append_values words
words_each-append none_left ws = refl
words_each-append (next v vs) ws =
    ap (λ l. words v ++ l) (words_each-append vs ws) ∙ sym (append_assoc (words v) _ _)

trace_each-append :
    (vs ws : Values) → trace_each (append_values vs ws) ≡ trace_each vs ++ trace_each ws
unfolding append_values trace
trace_each-append none_left ws = refl
trace_each-append (next v vs) ws =
    ap (λ l. trace v ++ l) (trace_each-append vs ws) ∙ sym (append_assoc (trace v) _ _)

weight_each-append :
    (vs ws : Values) → weight_each (append_values vs ws) ≡ weight_each vs + weight_each ws
unfolding append_values weight
weight_each-append none_left ws = omega arith
weight_each-append (next v vs) ws = omega (arith, weight_each-append vs ws)

-- What one call of `advance` does where the values `vs` wait: it finds none, or it yields the first
-- element and leaves values that have the others.
data Advanced (vs : Values) (rest : List ℕ) (r : Outcome (Option Element × Walker)) : Type 0 where
  at_end :
      trace_each vs ≡ [] → r ≡ ok (none, record { stack = []; buf = rest }) → Advanced vs rest r
  yielded :
      (el : Element) (ws : Values) (stack : List Dynamic)
      → Stacked ws stack
      → trace_each vs ≡ el ∷ trace_each ws
      → weight_each ws < weight_each vs
      → r ≡ ok (some el, record { stack = stack; buf = words_each ws ++ rest })
      → Advanced vs rest r

Advanced-lighter :
    (vs ws : Values) (rest : List ℕ) (r : Outcome (Option Element × Walker))
    → trace_each ws ≡ trace_each vs
    → weight_each vs ≤ weight_each ws
    → Advanced vs rest r
    → Advanced ws rest r
Advanced-lighter vs ws rest r e h (at_end none_there k) = at_end (e ∙ none_there) k
Advanced-lighter vs ws rest r e h (yielded el us stack s cut low k) =
    yielded el us stack s (e ∙ cut) (omega arith) k

advances :
    (f : ℕ) {vs : Values} {stack : List Dynamic} (rest : List ℕ)
    → Stacked vs stack
    → weight_each vs < f
    → Advanced vs rest (advance f (record { stack = stack; buf = words_each vs ++ rest }))
unfolding advance words trace weight
advances zero rest s h = absurd (omega arith)
advances (suc f) rest empty h = at_end refl refl
advances (suc f) rest (on_top {vs} typed_unit s) h =
    Advanced-lighter vs (next unit_value vs) rest _ refl (omega arith)
      (advances f rest s (omega arith))
advances (suc f) rest (on_top {vs} {stack} (typed_int n k) s) h =
    yielded (var_int_element n) vs stack s refl (omega arith) refl
advances (suc f) rest (on_top {vs} (typed_pair {v} {w} p q) s) h =
    rw (append_assoc (words v) (words w) (words_each vs)) (
      Advanced-lighter (next v (next w vs)) (next (pair_value v w) vs) rest _
        (append_assoc (trace v) (trace w) (trace_each vs)) (omega arith)
        (advances f rest (on_top p (on_top q s)) (omega arith)))
advances (suc f) rest (on_top {vs} {stack} (typed_sum {v} {t} ts i k e p) s) h =
    rw (e, push_variant)
      (yielded (sum_index i) (next v vs) (t ∷ stack) (on_top p s) refl (omega arith) refl)
advances (suc f) rest (on_top {vs} {stack} (typed_list {vs = xs} {t} k ps) s) h =
    yielded (list_length (length_values xs)) (append_values xs vs)
      (replicate (length_values xs) t ++ stack) (Stacked-each ps s)
      (ap (λ l. list_length (length_values xs) ∷ l) (sym (trace_each-append xs vs)))
      (omega (arith, weight_each-append xs vs))
      (ap
        (λ l.
          let r : Outcome (Option Element × Walker) = ok (
            some (list_length (length_values xs)),
            record { stack = replicate (length_values xs) t ++ stack; buf = l ++ rest },
          ) in
          r)
        (sym (words_each-append xs vs)))

drains :
    (f : ℕ) {vs : Values} {stack : List Dynamic} (rest : List ℕ)
    → Stacked vs stack
    → weight_each vs < f
    → drain f (record { stack = stack; buf = words_each vs ++ rest }) ≡ ok (trace_each vs, rest)
unfolding drain
drains zero rest s h = absurd (omega arith)
drains (suc f) {vs} rest s h = elim (advances (suc f) rest s h) [
  | at_end none_there e ↦ rw (e, none_there)
  | yielded el ws stack s' cut low e ↦ rw (e, drains f {vs = ws} rest s' (omega arith), cut)
]

-- Over the words of a value of the type, whatever follows them, the walker yields exactly the
-- elements of the value and then ends, at the first word behind it; more fuel than the value has
-- nodes is enough.
pub drain-words :
    (v : Value) (t : Dynamic) (f : ℕ) (rest : List ℕ)
    → Typed v t
    → weight v < f
    → drain f (start t (words v ++ rest)) ≡ ok (trace v, rest)
unfolding words trace weight
drain-words v t f rest typed h =
    ap (λ l. drain f (start t (l ++ rest))) (sym (append-nil (words v)))
    ∙ drains f rest (on_top typed empty) (omega arith)
    ∙ ap (λ l. let r : Outcome (List Element × List ℕ) = ok (l, rest) in r) (append-nil (trace v))
