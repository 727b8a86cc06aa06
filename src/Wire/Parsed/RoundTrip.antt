-- ===== src/Wire/Parsed/RoundTrip.antt =====
-- What the writers write for a typed value, the lazy parser reads back as that value.
use mathlib.Core.List.{append_assoc}
use object_introspection.Prelude.{
  subst, ◌-◌, ℕ, zero, suc, ◌<◌, ◌≤◌, ◌^◌, ◌≡◌, refl, List, ◌++◌, some, Outcome, ok, ◌>>=◌, arith,
}
use object_introspection.Wire.{
  Dynamic, Variants, nil, cons, variant, Value, Values, length_values, Typed, typed_unit, typed_int,
  typed_pair, typed_sum, typed_list, TypedEach, each_none, each_next,
}
use object_introspection.Wire.Varint.{write, parse_varint}
use object_introspection.Wire.Varint.RoundTrip.{parse_varint-write}
use object_introspection.Wire.Parsed.{
  parse, write_value, write_values, read_each, read_all, depth, depth_variants, parse_sum,
}

depth-variant :
    (ts : Variants) (i : ℕ) (t : Dynamic) → variant ts i ≡ some t → depth t ≤ depth_variants ts
unfolding depth
depth-variant nil i t h = cc
depth-variant (cons s ts) zero t h = ground arith
depth-variant (cons s ts) (suc i) t h = omega (arith, depth-variant ts i t h)

-- A varint in front of what is parsed next.
after_write :
    {A : Type 0} (n : ℕ) (rest : List ℕ) (then_do : ℕ × List ℕ → Outcome A)
    → n < 2 ^ 64
    → (parse_varint (write n ++ rest) >>= then_do) ≡ then_do (n, rest)
after_write n rest then_do h = rw (parse_varint-write n rest h)

-- Fuel that is at least 1 is the successor of what is left.
with_fuel : (P : ℕ → Type 0) (f : ℕ) → 0 < f → P (suc (f - 1)) → P f
with_fuel P f h p = let e : suc (f - 1) ≡ f = omega arith in subst P e p

mutual
  unfolding read_all parse write_value length_values depth

  reads_back :
      {v : Value} {t : Dynamic}
      → Typed v t
      → (f : ℕ) (rest : List ℕ) → depth t ≤ f
      → read_all (suc f) t (write_value v ++ rest) ≡ ok (v, rest)
  reads_back typed_unit f rest k = refl
  reads_back (typed_int n h) f rest k = rw (parse_varint-write n rest h)
  reads_back (typed_pair {v} {w} {s} {t} p q) f rest k =
      let ps = λ (r : List ℕ).
        with_fuel (λ k. read_all k s (write_value v ++ r) ≡ ok (v, r)) f (omega arith)
          (reads_back p (f - 1) r (omega arith)) in
      let qs =
        with_fuel (λ k. read_all k t (write_value w ++ rest) ≡ ok (w, rest)) f (omega arith)
          (reads_back q (f - 1) rest (omega arith)) in
      rw (append_assoc (write_value v) (write_value w) rest, ps (write_value w ++ rest), qs)
  reads_back (typed_sum {v} {t} ts i h e p) f rest k =
      let low = depth-variant ts i t e in
      let ps =
        with_fuel (λ k. read_all k t (write_value v ++ rest) ≡ ok (v, rest)) f (omega arith)
          (reads_back p (f - 1) rest (omega arith)) in
      rw
        (
          append_assoc (write i) (write_value v) rest,
          parse_varint-write i (write_value v ++ rest) h,
        )
        (rw (e, parse_sum) (rw ps))
  reads_back (typed_list {vs} {t} h p) f rest k =
      let ps =
        with_fuel
          (λ k.
            read_each (read_all k) t (length_values vs) (write_values vs ++ rest) ≡ ok (vs, rest))
          f (omega arith) (reads_each_back p (f - 1) rest (omega arith)) in
      rw (
        append_assoc (write (length_values vs)) (write_values vs) rest,
        parse_varint-write (length_values vs) (write_values vs ++ rest) h,
        ps,
      )

  reads_each_back :
      {vs : Values} {t : Dynamic}
      → TypedEach vs t
      → (f : ℕ) (rest : List ℕ) → depth t ≤ f
      → read_each (read_all (suc f)) t (length_values vs) (write_values vs ++ rest) ≡ ok (vs, rest)
  reads_each_back (each_none t) f rest k = refl
  reads_each_back (each_next {v} {vs} {t} p ps) f rest k = rw (
    append_assoc (write_value v) (write_values vs) rest,
    reads_back p f (write_values vs ++ rest) k,
    reads_each_back ps f rest k,
  )

-- Reading what was written for a value of the type gives the value back and stops behind it,
-- whatever follows, with more fuel than the type is deep.
pub read_all-write_value :
    (v : Value) (t : Dynamic) (f : ℕ) (rest : List ℕ)
    → Typed v t
    → depth t < f
    → read_all f t (write_value v ++ rest) ≡ ok (v, rest)
read_all-write_value v t f rest typed h =
    with_fuel (λ k. read_all k t (write_value v ++ rest) ≡ ok (v, rest)) f (omega arith)
      (reads_back typed (f - 1) rest (omega arith))
