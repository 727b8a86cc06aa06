-- ===== src/Padding/Tiling.antt =====
-- Padded members cover a class without a gap.
use object_introspection.Prelude.{
  >>=-eq-ok, ℕ, suc, ◌+◌, ◌-◌, ◌*◌, ◌/◌, ◌%◌, ◌^◌, ◌≤◌, ◌<◌, ◌≡◌, refl, ◌⊎◌, inl, inr, List, [],
  ◌∷◌, ◌++◌, some, true, false, ok, ◌==◌, ltb, arith, length, Bool-cases, get_elem?-append_end, ap,
  sym,
}
use mathlib.Core.Path.{subst₂}
use object_introspection.Types.{Member, primitive, int8}
use object_introspection.Store.{TypeGraph, deref, primitive_ref, make_type}
use object_introspection.Store.Extension.{Extends, Extends-make_type}
use object_introspection.Layout.{size_of}
use object_introspection.Layout.Extension.{size_of-Extends}
use object_introspection.Padding.{new_member, member_prefix, byte_array, member_bits}
use object_introspection.Padding.Gap.{bit_padding, byte_padding, grown_graph}

-- The members lie one behind the other from `start` to `end`, with neither gap nor overlap.
abbrev pub Tiles : ℕ → TypeGraph → ℕ → List Member → ℕ → Type 0
Tiles depth g start [] end = start ≡ end
Tiles depth g start (m ∷ ms) end =
    (m.bit_offset ≡ start)
    × ((w : ℕ) × (member_bits depth g m ≡ ok w) × Tiles depth g (start + w) ms end)

-- A gap that the padding can fill: it ends at a byte boundary, or has less than a byte.
pub record IsGap (start end : ℕ) : Type 0 where
  pub ordered : start ≤ end
  pub small : end < 2 ^ 63
  pub fillable : (end % 8 ≡ 0) ⊎ (end < start + 8)

-- Members in the order of their offsets, with such gaps between them.
abbrev pub Spaced : ℕ → TypeGraph → ℕ → List Member → ℕ → Type 0
Spaced depth g start [] end = IsGap start end
Spaced depth g start (m ∷ ms) end =
    IsGap start m.bit_offset
    × ((w : ℕ) × (member_bits depth g m ≡ ok w) × Spaced depth g (m.bit_offset + w) ms end)

pub Tiles-append :
    (depth : ℕ) (g : TypeGraph) (start mid end : ℕ) (xs ys : List Member)
    → Tiles depth g start xs mid
    → Tiles depth g mid ys end
    → Tiles depth g start (xs ++ ys) end
Tiles-append depth g start mid end [] ys h k = rw h k
Tiles-append depth g start mid end (m ∷ xs) ys (o, (w, e, h)) k =
    (o, (w, e, Tiles-append depth g (start + w) mid end xs ys h k))

pub member_bits-Extends :
    (depth : ℕ) (g g' : TypeGraph) (m : Member) (w : ℕ)
    → Extends g g'
    → member_bits depth g m ≡ ok w
    → member_bits depth g' m ≡ ok w
unfolding member_bits
member_bits-Extends depth g g' m w ext h = elim (Bool-cases (m.bitsize == 0)) [
  | inl whole ↦
      let (s, e, k) = >>=-eq-ok (size_of depth g m.type) _ (rw (whole, member_bits) at h) in
      rw (whole, size_of-Extends depth g g' m.type s ext e) k
  | inr part ↦ rw part (rw (part, member_bits) at h)
]

pub Tiles-Extends :
    (depth : ℕ) (g g' : TypeGraph) (start end : ℕ) (ms : List Member)
    → Extends g g'
    → Tiles depth g start ms end
    → Tiles depth g' start ms end
Tiles-Extends depth g g' start end [] ext h = h
Tiles-Extends depth g g' start end (m ∷ ms) ext (o, (w, e, h)) = (
  o,
  (w, member_bits-Extends depth g g' m w ext e, Tiles-Extends depth g g' (start + w) end ms ext h),
)

pub Spaced-Extends :
    (depth : ℕ) (g g' : TypeGraph) (start end : ℕ) (ms : List Member)
    → Extends g g'
    → Spaced depth g start ms end
    → Spaced depth g' start ms end
Spaced-Extends depth g g' start end [] ext h = h
Spaced-Extends depth g g' start end (m ∷ ms) ext (o, (w, e, h)) = (
  o,
  (
    w,
    member_bits-Extends depth g g' m w ext e,
    Spaced-Extends depth g g' (m.bit_offset + w) end ms ext h,
  ),
)

pub grown_graph-Extends : (bits : ℕ) (g : TypeGraph) → Extends g (grown_graph bits g)
grown_graph-Extends bits g = elim (Bool-cases (ltb 0 (bits / 8))) [
  | inl more ↦ rw more (Extends-make_type (byte_array (bits / 8)) g)
  | inr none_left ↦ rw none_left (λ r n e. e)
]

module _ (d : ℕ) (g : TypeGraph) (byte : deref g (primitive_ref int8) ≡ some (primitive int8)) where
  -- A new array of bytes has its number of bytes.
  byte_array_bits :
      (bytes start : ℕ)
      → bytes < 2 ^ 60
      → member_bits
          (suc (suc d))
          (make_type (byte_array bytes) g).1
          (record (new_member (length g.nodes) "" start 0) { name = member_prefix })
        ≡ ok (bytes * 8)
  unfolding member_bits size_of make_type
  byte_array_bits bytes start h =
      rw
        (
          get_elem?-append_end g.nodes (byte_array bytes g.next_id),
          Extends-make_type (byte_array bytes) g 0 (primitive int8) byte,
        )
        (ap ok (omega arith))

  pad_bit_bits :
      (g' : TypeGraph) (start bits : ℕ)
      → (bits % 8 == 0) ≡ false
      → member_bits
          (suc (suc d))
          g'
          (new_member (primitive_ref int8) member_prefix start (bits % 8))
        ≡ ok (bits % 8)
  unfolding member_bits
  pad_bit_bits g' start bits h = rw h

  abbrev bit_member : ℕ → ℕ → Member
  bit_member start bits = new_member (primitive_ref int8) member_prefix start (bits % 8)

  abbrev byte_member : ℕ → Member
  byte_member start = record (new_member (length g.nodes) "" ((start + 7) / 8 * 8) 0) {
    name = member_prefix;
  }

  byte_member_bits :
      (start bits : ℕ)
      → ltb 0 (bits / 8) ≡ true
      → bits < 2 ^ 63
      → member_bits (suc (suc d)) (grown_graph bits g) (byte_member start) ≡ ok (bits / 8 * 8)
  byte_member_bits start bits more h =
      rw more (byte_array_bits (bits / 8) ((start + 7) / 8 * 8) (omega arith))

  bit_padding_some :
      (start bits : ℕ)
      → (bits % 8 == 0) ≡ false
      → bit_padding start bits ≡ bit_member start bits ∷ []
  bit_padding_some start bits h = rw h

  bit_padding_none : (start bits : ℕ) → (bits % 8 == 0) ≡ true → bit_padding start bits ≡ []
  bit_padding_none start bits h = rw h

  byte_padding_some :
      (start bits : ℕ)
      → ltb 0 (bits / 8) ≡ true
      → byte_padding (length g.nodes) start bits ≡ byte_member start ∷ []
  byte_padding_some start bits h = rw h

  byte_padding_none :
      (start bits : ℕ) → ltb 0 (bits / 8) ≡ false → byte_padding (length g.nodes) start bits ≡ []
  byte_padding_none start bits h = rw h

  pub gap-Tiles :
      (start end : ℕ)
      → IsGap start end
      → Tiles
          (suc (suc d))
          (grown_graph (end - start) g)
          start
          (bit_padding start (end - start) ++ byte_padding (length g.nodes) start (end - start))
          end
  gap-Tiles start end gap =
      let b = end - start in
      let ordered = gap.ordered in
      let small = gap.small in
      let fillable = gap.fillable in
      let P = λ (xs ys : List Member).
        Tiles (suc (suc d)) (grown_graph (end - start) g) start (xs ++ ys) end in
      elim (Bool-cases (b % 8 == 0)) [
        | inl whole ↦ elim (Bool-cases (ltb 0 (b / 8))) [
          | inl bytes ↦
              subst₂ P (sym (bit_padding_none start b whole))
                (sym (byte_padding_some start b bytes))
                (
                  ground arith,
                  (b / 8 * 8, byte_member_bits start b bytes (omega arith), ground arith),
                )
          | inr empty ↦
              subst₂ P (sym (bit_padding_none start b whole))
                (sym (byte_padding_none start b empty)) (ground arith)
        ]
        | inr part ↦
            let first = pad_bit_bits (grown_graph b g) start b part in
            elim (Bool-cases (ltb 0 (b / 8))) [
              | inl bytes ↦
                  subst₂ P (sym (bit_padding_some start b part))
                    (sym (byte_padding_some start b bytes))
                    (
                      refl,
                      (
                        b % 8,
                        first,
                        (
                          ground arith,
                          (b / 8 * 8, byte_member_bits start b bytes (omega arith), ground arith),
                        ),
                      ),
                    )
              | inr empty ↦
                  subst₂ P (sym (bit_padding_some start b part))
                    (sym (byte_padding_none start b empty)) (refl, (b % 8, first, ground arith))
            ]
      ]
