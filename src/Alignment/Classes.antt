-- ===== src/Alignment/Classes.antt =====
-- The alignment and the packing of one class, against their description by its members.
use object_introspection.Prelude.{
  subst, ok-injective, eq_of_==, ℕ, ◌%◌, max, ◌≡◌, ◌≢◌, refl, inl, inr, sym, ap, ◌∙◌, List, [], ◌∷◌,
  Bool, true, false, not, ◌&&◌, ◌||◌, Outcome, ok, ◌==◌, arith, Bool-cases, >>=-eq-ok,
}
use object_introspection.Types.{Ref, Member, Class, class_node}
use object_introspection.Store.{put}
use object_introspection.Layout.{align_of}
use object_introspection.Visitor.{Walk, load_class}
use object_introspection.Alignment.{
  Scan, is_misaligned, resolve, scan_members, align_members, pack_tail, align_class,
}

-- The largest of a number and the members' alignments.
abbrev pub largest : ℕ → List Member → ℕ
largest a [] = a
largest a (m ∷ ms) = largest (max a m.align) ms

abbrev pub any_misaligned : List Member → Bool
any_misaligned [] = false
any_misaligned (m ∷ ms) = is_misaligned m || any_misaligned ms

-- What becomes of a member: it stays the same, but that an alignment of 0 is replaced by that of its
-- type, in the graph after the type was accepted. `s` and `s'` are the states before and behind it.
pub record SameMember (depth : ℕ) (accept : Ref → Walk → Outcome Walk) (m : Member) (s : Walk)
    (m' : Member) (s' : Walk) : Type 0 where
  pub type : m'.type ≡ m.type
  pub name : m'.name ≡ m.name
  pub input_name : m'.input_name ≡ m.input_name
  pub bit_offset : m'.bit_offset ≡ m.bit_offset
  pub bitsize : m'.bitsize ≡ m.bitsize
  pub explicit : m.align ≢ 0 → (m'.align ≡ m.align) × (s' ≡ s)
  pub filled :
      m.align ≡ 0 → (accept m.type s ≡ ok s') × (align_of depth s'.graph m.type ≡ ok m'.align)

abbrev pub SameMembers :
    ℕ → (Ref → Walk → Outcome Walk) → List Member → Walk → List Member → Walk → Type 0
SameMembers depth accept [] s [] s' = s' ≡ s
SameMembers depth accept [] s (m' ∷ ms') s' = ⊥
SameMembers depth accept (m ∷ ms) s [] s' = ⊥
SameMembers depth accept (m ∷ ms) s (m' ∷ ms') s' =
    (t : Walk) × SameMember depth accept m s m' t × SameMembers depth accept ms t ms' s'

||-assoc : (a b c : Bool) → ((a || b) || c) ≡ (a || (b || c))
||-assoc a b c = ground arith

module _ (depth : ℕ) (accept : Ref → Walk → Outcome Walk) where
  resolve-SameMember :
      (m : Member) (s : Walk) (m' : Member) (s' : Walk)
      → resolve depth accept m s ≡ ok (m', s')
      → SameMember depth accept m s m' s'
  unfolding resolve
  resolve-SameMember m s m' s' h = elim (Bool-cases (m.align == 0)) [
    | inl zero ↦
        let (t, visits, k) = >>=-eq-ok (accept m.type s) _ (rw (zero, resolve) at h) in
        let (a, aligns, e) = >>=-eq-ok (align_of depth t.graph m.type) _ k in
        subst (λ (p : Member × Walk). SameMember depth accept m s p.0 p.1) (ok-injective e)
          (record {
            type = refl;
            name = refl;
            input_name = refl;
            bit_offset = refl;
            bitsize = refl;
            explicit = λ n. absurd (n (eq_of_== m.align 0 zero));
            filled = λ _. (visits, aligns);
          })
    | inr given ↦
        subst (λ (p : Member × Walk). SameMember depth accept m s p.0 p.1)
          (ok-injective (rw (given, resolve) at h))
          (record {
            type = refl;
            name = refl;
            input_name = refl;
            bit_offset = refl;
            bitsize = refl;
            explicit = λ n. (refl, refl);
            filled = λ z. absurd (cc (rw z at given));
          })
  ]

  pub record Scanned (ms : List Member) (s : Scan) (ms' : List Member) (s' : Scan) : Type 0 where
    pub same : SameMembers depth accept ms s.walk ms' s'.walk
    pub alignment : s'.alignment ≡ largest s.alignment ms'
    pub packed : s'.packed ≡ (s.packed || any_misaligned ms')

  scan_members-Scanned :
      (ms : List Member) (s : Scan) (ms' : List Member) (s' : Scan)
      → scan_members depth accept ms s ≡ ok (ms', s')
      → Scanned ms s ms' s'
  unfolding scan_members
  scan_members-Scanned [] s ms' s' h =
      subst (λ (p : List Member × Scan). Scanned [] s p.0 p.1) (ok-injective h)
        (record { same = refl; alignment = refl; packed = ground arith })
  scan_members-Scanned (m ∷ ms) s ms' s' h =
      let ((m', walk), e, k) = >>=-eq-ok (resolve depth accept m s.walk) _ h in
      let s₁ : Scan = record {
        walk = walk;
        alignment = max s.alignment m'.align;
        packed = s.packed || is_misaligned m';
      } in
      let ((ms₁, s₂), e₂, k₂) = >>=-eq-ok (scan_members depth accept ms s₁) _ k in
      let rest = scan_members-Scanned ms s₁ ms₁ s₂ e₂ in
      subst (λ (p : List Member × Scan). Scanned (m ∷ ms) s p.0 p.1) (ok-injective k₂)
        (record {
          same = (walk, resolve-SameMember m s.walk m' walk e, rest.same);
          alignment = rest.alignment;
          packed = rest.packed ∙ ||-assoc s.packed (is_misaligned m') (any_misaligned ms₁);
        })

-- What the pass makes of a class: its alignment, if not known, is the largest of 1 and those of its
-- members, of which those not known are filled in, and "packed" is added for a misaligned member,
-- for the alignment 1 and for a size that is no multiple of the alignment.
pub record Aligned (depth : ℕ) (accept : Ref → Walk → Outcome Walk) (c : Class) (s : Walk)
    (c' : Class) (t : Walk) : Type 0 where
  pub rest : c' ≡ record c { members = c'.members; align = c'.align; packed = c'.packed }
  pub members : c.align ≡ 0 → SameMembers depth accept c.members s c'.members t
  pub align : c.align ≡ 0 → c'.align ≡ largest 1 c'.members
  pub explicit : c.align ≢ 0 → (c'.align ≡ c.align) × (c'.members ≡ c.members) × (t ≡ s)
  pub packed : c'.packed ≡ (
      (c.packed || (c.align == 0 && any_misaligned c'.members))
      || (c'.align == 1 || not (c.size % c'.align == 0)))

-- `Aligned`, before the test of the tail.
record HeadAligned (depth : ℕ) (accept : Ref → Walk → Outcome Walk) (c : Class) (s : Walk)
    (c' : Class) (t : Walk) : Type 0 where
  rest : c' ≡ record c { members = c'.members; align = c'.align; packed = c'.packed }
  members : c.align ≡ 0 → SameMembers depth accept c.members s c'.members t
  align : c.align ≡ 0 → c'.align ≡ largest 1 c'.members
  explicit : c.align ≢ 0 → (c'.align ≡ c.align) × (c'.members ≡ c.members) × (t ≡ s)
  packed : c'.packed ≡ (c.packed || (c.align == 0 && any_misaligned c'.members))

module _ (depth : ℕ) (accept : Ref → Walk → Outcome Walk) where
  pack_tail-Aligned :
      (c : Class) (s : Walk) (c' : Class) (t : Walk)
      → HeadAligned depth accept c s c' t
      → Aligned depth accept c s (pack_tail c') t
  unfolding pack_tail
  pack_tail-Aligned c s c' w h =
      let size : c'.size ≡ c.size = ap (λ (x : Class). x.size) h.rest in
      elim (Bool-cases (c'.align == 1 || not (c'.size % c'.align == 0))) [
        | inl tail ↦ rw tail (record {
          rest = ap (λ (x : Class). record x { packed = true }) h.rest;
          members = h.members;
          align = h.align;
          explicit = h.explicit;
          packed =
              let t : (c'.align == 1 || not (c.size % c'.align == 0)) ≡ true =
                subst (λ (z : ℕ). (c'.align == 1 || not (z % c'.align == 0)) ≡ true) size tail in
              rw t (ground arith);
        })
        | inr full ↦ rw full (record {
          rest = h.rest;
          members = h.members;
          align = h.align;
          explicit = h.explicit;
          packed =
              let t : (c'.align == 1 || not (c.size % c'.align == 0)) ≡ false =
                subst (λ (z : ℕ). (c'.align == 1 || not (z % c'.align == 0)) ≡ false) size full in
              rw (t, h.packed) (ground arith);
        })
      ]

  align_members-HeadAligned :
      (c : Class) (s : Walk) (c' : Class) (s' : Walk)
      → align_members depth accept c s ≡ ok (c', s')
      → HeadAligned depth accept c s c' s'
  unfolding align_members
  align_members-HeadAligned c s c' s' h = elim (Bool-cases (c.align == 0)) [
    | inl zero ↦
        let start : Scan = record { walk = s; alignment = 1; packed = c.packed } in
        let ((ms, t), e, k) =
          >>=-eq-ok (scan_members depth accept c.members start) _ (rw (zero, align_members) at h) in
        let scanned = scan_members-Scanned depth accept c.members start ms t e in
        subst (λ (p : Class × Walk). HeadAligned depth accept c s p.0 p.1) (ok-injective k)
          (record {
            rest = refl;
            members = λ _. scanned.same;
            align = λ _. scanned.alignment;
            explicit = λ n. absurd (n (eq_of_== c.align 0 zero));
            packed = rw zero scanned.packed;
          })
    | inr given ↦
        subst (λ (p : Class × Walk). HeadAligned depth accept c s p.0 p.1)
          (ok-injective (rw (given, align_members) at h))
          (record {
            rest = refl;
            members = λ z. absurd (cc (rw z at given));
            align = λ z. absurd (cc (rw z at given));
            explicit = λ n. (refl, refl, refl);
            packed = rw given (ground arith);
          })
  ]

  -- Where the pass returns for the class at an address, it has put there a class of which this holds,
  -- and that is all it has done behind the visits of the members' types.
  -- Only the members, the alignment and the flag "packed" may differ from those of the class given.
  -- If the alignment of the class was not 0, it and the members stay, and no type is visited. If it
  -- was 0, the members are gone through in order; each keeps its type, its names, its offset and its
  -- bit size, and an alignment that was not 0, in which case its type is not visited; an alignment
  -- of 0 is replaced by the one that `align_of` gives for the type of the member in the graph that
  -- visiting that type left; and the alignment of the class is the largest of 1 and the alignments
  -- of the members. The class is packed if it was before, if its alignment was 0 and some member is
  -- misaligned (its alignment is not 0, and the byte in which it starts is at no multiple of it), if
  -- the alignment of the class is now 1, or if its size is no multiple of that; and else not.
  pub align_class-Aligned :
      (r : Ref) (s s' : Walk) (c : Class)
      → load_class s.graph r ≡ ok c
      → align_class depth accept r s ≡ ok s'
      → (c' : Class) × (t : Walk) × (s' ≡ record t { graph = put r (class_node c') t.graph })
        × Aligned depth accept c s c' t
  unfolding align_class
  align_class-Aligned r s s' c loaded h =
      let ((c', t), e, k) = >>=-eq-ok (align_members depth accept c s) _ (rw loaded at h) in
      (
        pack_tail c',
        t,
        sym (ok-injective k),
        pack_tail-Aligned c s c' t (align_members-HeadAligned c s c' t e),
      )
