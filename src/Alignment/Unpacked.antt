-- ===== src/Alignment/Unpacked.antt =====
-- What "not packed" promises of a class.
use object_introspection.Prelude.{
  ℕ, ◌/◌, ◌%◌, ◌≤◌, ◌<◌, max, ◌≡◌, ◌≢◌, List, [], ◌∷◌, false, Outcome, ok, arith, All, sym, ap,
}
use object_introspection.Types.{Ref, Member, Class, class_node}
use object_introspection.Store.{TypeGraph, put}
use object_introspection.Visitor.{Walk, load_class}
use object_introspection.Alignment.{align_class}
use object_introspection.Alignment.Classes.{largest, any_misaligned, align_class-Aligned}

-- The byte in which the member starts is at a multiple of its alignment, if that is known. A bitfield
-- may start inside that byte.
abbrev pub IsAtMultiple : Member → Type 0
IsAtMultiple m = m.align ≢ 0 → m.bit_offset / 8 % m.align ≡ 0

not_any_misaligned : (ms : List Member) → any_misaligned ms ≡ false → All IsAtMultiple ms
not_any_misaligned [] h = tt
not_any_misaligned (m ∷ ms) h = (λ n. ground arith, not_any_misaligned ms (ground arith))

largest-le : (a : ℕ) (ms : List Member) → a ≤ largest a ms
largest-le a [] = omega arith
largest-le a (m ∷ ms) = omega (arith, largest-le (max a m.align) ms)

le-largest : (a : ℕ) (ms : List Member) (b : ℕ) → largest a ms ≡ b → All (λ m. m.align ≤ b) ms
le-largest a [] b h = tt
le-largest a (m ∷ ms) b h =
    (omega (arith, largest-le (max a m.align) ms), le-largest (max a m.align) ms b h)

pub record IsRegular (c c' : Class) : Type 0 where
  pub offsets : All IsAtMultiple c'.members
  pub covers : All (λ m. m.align ≤ c'.align) c'.members
  pub above_one : 1 < c'.align
  pub no_tail : c.size % c'.align ≡ 0

-- If the pass returns for a class whose alignment was 0, and leaves it unpacked, then for every member
-- the byte in which it starts (its offset in bits, divided by 8 and rounded down) is at a multiple of
-- its alignment, where that is not 0; no member's alignment is above that of the class; this is more
-- than 1; and the size is a multiple of it.
pub align_class-IsRegular :
    (depth : ℕ) (accept : Ref → Walk → Outcome Walk) (r : Ref) (s s' : Walk) (c : Class)
    → load_class s.graph r ≡ ok c
    → c.align ≡ 0
    → align_class depth accept r s ≡ ok s'
    → (c' : Class) × (g : TypeGraph) × (s'.graph ≡ put r (class_node c') g)
      × (c'.packed ≡ false → IsRegular c c')
align_class-IsRegular depth accept r s s' c loaded zero h =
    let (c', t, stored, a) = align_class-Aligned depth accept r s s' c loaded h in
    let align = a.align zero in
    (
      c',
      t.graph,
      ap (λ (w : Walk). w.graph) stored,
      λ unpacked.
          let packed = a.packed in
          let low = largest-le 1 c'.members in
          record {
            offsets = not_any_misaligned c'.members (ground arith);
            covers = le-largest 1 c'.members c'.align (sym align);
            above_one = ground arith;
            no_tail = ground arith;
          },
    )
