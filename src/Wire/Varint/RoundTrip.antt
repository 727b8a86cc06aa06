-- ===== src/Wire/Varint/RoundTrip.antt =====
-- A number written is read back.
use native.Mathlib.Numerals.{towards_suc}
use object_introspection.Prelude.{
  ℕ, zero, suc, ◌+◌, ◌*◌, ◌/◌, ◌%◌, ◌^◌, ◌-◌, ◌<◌, ◌≤◌, ◌≡◌, refl, ◌∙◌, List, [], if◌then◌else◌,
  ◌∷◌, ◌++◌, Outcome, ok, leb, true, false, arith, Bool-cases, inl, inr, ap, length, All,
}
use object_introspection.Wire.Varint.{write_from, write, or_shifted, parse_from, parse_varint}

-- Any fuel above the value gives the same bytes.
write_from_settled :
    (fuel fuel' val : ℕ) → val < fuel → val < fuel' → write_from fuel val ≡ write_from fuel' val
unfolding write_from
write_from_settled zero fuel' val h k = absurd (omega arith)
write_from_settled (suc fuel) zero val h k = absurd (omega arith)
write_from_settled (suc fuel) (suc fuel') val h k = elim (Bool-cases (leb 128 val)) [
  | inl more ↦
      let rest = write_from_settled fuel fuel' (val / 128) (ground arith) (ground arith) in
      rw (more, write_from, rest) refl
  | inr last ↦ rw (last, write_from) refl
]

-- The loop of the source, at every value: the fuel of `write` never runs out.
write_lem :
    (val : ℕ)
    → write val ≡ (if leb 128 val then (128 + val % 128) ∷ write (val / 128) else val ∷ [])
unfolding write write_from
write_lem val = elim (Bool-cases (leb 128 val)) [
  | inl more ↦
      let rest =
        write_from_settled val (suc (val / 128)) (val / 128) (ground arith) (omega arith) in
      rw (more, write_from, rest) refl
  | inr last ↦ rw (last, write_from) refl
]

pow_shift : (s : ℕ) → 2 ^ (s + 7) ≡ 128 * 2 ^ s
pow_shift s = simp towards_suc (omega arith)

parse_from_more :
    (v s b : ℕ) (bs : List ℕ)
    → s < 64
    → 128 ≤ b
    → parse_from v s (b ∷ bs) ≡ parse_from (or_shifted v b s) (s + 7) bs
unfolding parse_from
parse_from_more v s b bs h k =
    let e : leb 64 s ≡ false = ground arith in
    let e' : leb 128 b ≡ true = ground arith in rw (e, e')

parse_from_last :
    (v s b : ℕ) (bs : List ℕ)
    → s < 64
    → b < 128
    → parse_from v s (b ∷ bs) ≡ ok (or_shifted v b s, bs)
unfolding parse_from
parse_from_last v s b bs h k =
    let e : leb 64 s ≡ false = ground arith in
    let e' : leb 128 b ≡ false = ground arith in rw (e, e')

-- The last byte, and the bytes before it, as sums; `p` is the power of two of the shift.
last_sum : (val p : ℕ) → val < 128 → val * p < 2 ^ 64 → val % 128 * p % 2 ^ 64 ≡ val * p
last_sum val p h k = let m : val % 128 ≡ val = omega arith in rw m (omega arith)

more_sum :
    (val p : ℕ)
    → val * p < 2 ^ 64
    → ((128 + val % 128) % 128 * p % 2 ^ 64 + val / 128 * (128 * p) ≡ val * p)
      × (val / 128 * (128 * p) < 2 ^ 64)
more_sum val p h =
    let split : val ≡ 128 * (val / 128) + val % 128 = omega arith in
    let scaled = ap (λ (t : ℕ). t * p) split in
    let low : (128 + val % 128) % 128 ≡ val % 128 = omega arith in rw low (omega arith)

rounds_left :
    (rounds s val : ℕ) → s + 7 * suc rounds ≡ 70 → 128 ≤ val → val * 2 ^ s < 2 ^ 64 → 0 < rounds
rounds_left zero s val e h k =
    let at_end : s ≡ 63 = omega arith in
    let k' : val * 2 ^ 63 < 2 ^ 64 = rw at_end at k in absurd (omega arith)
rounds_left (suc rounds) s val e h k = omega arith

-- The state of both loops: the bits from `s` on are left, `suc left` rounds at most, and there is
-- fuel for them.
record Goes (fuel left s val : ℕ) : Type 0 where
  fuelled : val < fuel
  shifted : s + 7 * suc left ≡ 70
  fits : val * 2 ^ s < 2 ^ 64

-- Where the value does not fit the byte, there is a next round.
Goes-next :
    (fuel left s val : ℕ)
    → Goes (suc fuel) left s val
    → 128 ≤ val
    → (0 < left) × Goes fuel (left - 1) (s + 7) (val / 128)
Goes-next fuel left s val g h =
    let more = rounds_left left s val g.shifted h g.fits in
    (
      more,
      record {
        fuelled = omega (arith, g.fuelled);
        shifted = omega (arith, g.shifted);
        fits = rw (pow_shift s) (more_sum val (2 ^ s) g.fits).1;
      },
    )

parse_from-write_from :
    (fuel left v s val : ℕ) (rest : List ℕ)
    → Goes fuel left s val
    → parse_from v s (write_from fuel val ++ rest) ≡ ok (v + val * 2 ^ s, rest)
unfolding write_from
parse_from-write_from zero left v s val rest g = absurd (omega (arith, g.fuelled))
parse_from-write_from (suc fuel) left v s val rest g = elim (Bool-cases (leb 128 val)) [
  | inl more ↦
      let sums = (more_sum val (2 ^ s) g.fits).0 in
      let (_, next) = Goes-next fuel left s val g (ground arith) in
      let tail = write_from fuel (val / 128) ++ rest in
      rw (more, write_from)
        (parse_from_more v s (128 + val % 128) tail (omega (arith, g.shifted)) (omega arith)
          ∙ parse_from-write_from fuel (left - 1) (or_shifted v (128 + val % 128) s) (s + 7)
              (val / 128) rest next
          ∙ ap (λ (x : ℕ). let r : Outcome (ℕ × List ℕ) = ok (x, rest) in r)
              (rw (pow_shift s) (omega arith)))
  | inr last ↦
      rw (last, write_from)
        (parse_from_last v s val rest (omega (arith, g.shifted)) (ground arith)
          ∙ ap (λ (x : ℕ). let r : Outcome (ℕ × List ℕ) = ok (v + x, rest) in r)
              (last_sum val (2 ^ s) (ground arith) g.fits))
]

Goes-start : (val : ℕ) → val < 2 ^ 64 → Goes (suc val) 9 0 val
Goes-start val h = record { fuelled = omega arith; shifted = refl; fits = omega arith }

-- A uint64_t that is written is read back, and the reader stops behind it, whatever follows.
pub parse_varint-write :
    (val : ℕ) (rest : List ℕ) → val < 2 ^ 64 → parse_varint (write val ++ rest) ≡ ok (val, rest)
unfolding parse_varint write
parse_varint-write val rest h =
    parse_from-write_from (suc val) 9 0 0 val rest (Goes-start val h)
    ∙ ap (λ (x : ℕ). let r : Outcome (ℕ × List ℕ) = ok (x, rest) in r) (omega arith)

write_from_bounds :
    (fuel left s val : ℕ)
    → Goes fuel left s val
    → All (λ b. b < 256) (write_from fuel val)
      × (length (write_from fuel val) ≤ suc left)
      × (0 < length (write_from fuel val))
unfolding write_from
write_from_bounds zero left s val g = absurd (omega (arith, g.fuelled))
write_from_bounds (suc fuel) left s val g = elim (Bool-cases (leb 128 val)) [
  | inl more ↦
      let (some_left, next) = Goes-next fuel left s val g (ground arith) in
      let (bytes, short, _) = write_from_bounds fuel (left - 1) (s + 7) (val / 128) next in
      rw (more, write_from) ((omega arith, bytes), omega arith, omega arith)
  | inr last ↦ rw (last, write_from) ((ground arith, tt), omega arith, omega arith)
]

-- A uint64_t is written in at most ten bytes and at least one, and each of them fits a byte.
pub write_bounds :
    (val : ℕ)
    → val < 2 ^ 64
    → All (λ b. b < 256) (write val) × (length (write val) ≤ 10) × (0 < length (write val))
unfolding write
write_bounds val h = write_from_bounds (suc val) 9 0 val (Goes-start val h)
