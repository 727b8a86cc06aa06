-- ===== src/Wire/Walker.antt =====
-- oi/exporters/TypeCheckingWalker.cpp and .h: a stack machine over a dynamic type and the words of
-- a data segment.
pub mod Trace
use object_introspection.Prelude.{
  ℕ, zero, suc, List, [], ◌∷◌, ◌++◌, Option, none, some, Outcome, ok, err, runtime_error,
  bad_sum_index, out_of_fuel, ◌>>=◌, replicate,
}
use object_introspection.Wire.{
  Dynamic, unit, var_int, pair, sum, list, Variants, variant, variants_size,
}

-- `VarInt`, `SumIndex` and `ListLength`.
pub data Element : Type 0 where
  var_int_element sum_index list_length : ℕ → Element

pub record Walker : Type 0 where
  pub stack : List Dynamic
  pub buf : List ℕ

abbrev pub start : Dynamic → List ℕ → Walker
start root buffer = record { stack = root ∷ []; buf = buffer }

unfoldable pub pop_front : List ℕ → Outcome (ℕ × List ℕ)
pop_front [] = err (runtime_error "unexpected end of data segment")
pop_front (el ∷ buf) = ok (el, buf)

-- The choice of a variant, which throws if there is none of that index.
abbrev pub push_variant : Variants → ℕ → List Dynamic → List ℕ → Outcome (Option Element × Walker)
push_variant ts el stack buf = elim (variant ts el) [
  | none ↦ err (bad_sum_index el (variants_size ts))
  | some t ↦ ok (some (sum_index el), record { stack = t ∷ stack; buf = buf })
]

-- `advance`, by the top of the stack; `again` is the call that it makes of itself.
abbrev pub advance_on :
    (Walker → Outcome (Option Element × Walker))
    → Dynamic
    → List Dynamic
    → List ℕ
    → Outcome (Option Element × Walker)
advance_on again unit stack buf = again (record { stack = stack; buf = buf })
advance_on again var_int stack buf = pop_front buf >>= λ (el, rest).
    ok (some (var_int_element el), record { stack = stack; buf = rest })
advance_on again (pair s t) stack buf = again (record { stack = s ∷ t ∷ stack; buf = buf })
advance_on again (list t) stack buf = pop_front buf >>= λ (el, rest).
    ok (some (list_length el), record { stack = replicate el t ++ stack; buf = rest })
advance_on again (sum ts) stack buf = pop_front buf >>= λ (el, rest). push_variant ts el stack rest

abbrev pub advance_stack :
    (Walker → Outcome (Option Element × Walker))
    → List Dynamic
    → List ℕ
    → Outcome (Option Element × Walker)
advance_stack again [] buf = ok (none, record { stack = []; buf = buf })
advance_stack again (t ∷ stack) buf = advance_on again t stack buf

-- Fuel bounds how many units and pairs are unpacked before an element is found.
unfoldable pub advance : ℕ → Walker → Outcome (Option Element × Walker)
unfolding pop_front
advance zero w = out_of_fuel
advance (suc f) w = advance_stack (advance f) w.stack w.buf

-- `while (auto el = walker.advance())`: all elements, and the words left.
unfoldable pub drain : ℕ → Walker → Outcome (List Element × List ℕ)
unfolding advance
drain zero w = out_of_fuel
drain (suc f) w = advance (suc f) w >>= λ (o, w'). elim o [
  | none ↦ ok ([], w'.buf)
  | some el ↦ drain f w' >>= λ (els, rest). ok (el ∷ els, rest)
]
