-- ===== src/Results/Json/Forests.antt =====
-- The elements of a result in the order of a traversal are the forest of the objects that are printed.
use mathlib.Core.List.{append_assoc, append-nil}
use object_introspection.Prelude.{
  ℕ, zero, suc, ◌+◌, ◌-◌, ◌*◌, ◌^◌, ◌≡◌, ◌≤◌, ◌<◌, refl, sym, List, [], ◌∷◌, ◌++◌, Bool, true,
  false, ok, if◌then◌else◌, ltb, length, length-append, replicate, codes, arith, Bool-cases, inl,
  inr, sub_u64, mul_u64, max, sub_u64_le,
}
use object_introspection.Results.Json.{
  make_indent, endl, closing, opening, members_key, indent_of, print, print_elements, print_members,
}

-- Elements, each with those below it and those behind it.
pub data Forest (X : Type 0) : Type 0 where
  nil : Forest X
  cons : X → (members others : Forest X) → Forest X

module _ {X : Type 0} where
  abbrev pub items : Forest X → List X
  items nil = []
  items (cons x members others) = x ∷ (items members ++ items others)

module _ {X : Type 0} (depth_of : X → ℕ) where
  -- The length of the type path is the depth in the forest, counted from `d`.
  abbrev pub IsAtDepth : ℕ → Forest X → Type 0
  IsAtDepth d nil = Unit
  IsAtDepth d (cons x members others) =
      (depth_of x ≡ d) × (d < 2 ^ 60) × IsAtDepth (suc d) members × IsAtDepth d others

  -- What follows in the result is not below depth `d`.
  abbrev pub EndsAt : ℕ → List X → Type 0
  EndsAt d [] = Unit
  EndsAt d (x ∷ xs) = depth_of x < d

module _ {X : Type 0} (pretty : Bool) (fields_of : X → List ℕ → List ℕ) where
  abbrev pub indent : ℕ → List ℕ
  indent d = if pretty then replicate ((d - 1) * 4) b' ' else []

  -- A list of objects, given what stands between its brackets.
  abbrev pub in_list : ℕ → List ℕ → List ℕ
  in_list d body = (b'[' ∷ (endl pretty ++ indent d)) ++ (body ++ closing pretty d (indent (d - 1)))

  abbrev members_text : ℕ → Forest X → List ℕ → List ℕ
  members_text d nil body = codes "[]" ++ endl pretty
  members_text d (cons _ _ _) body = in_list (suc d) body

  -- The objects of a forest, with commas between them.
  unfoldable pub objects : ℕ → Bool → Forest X → List ℕ
  objects d first nil = []
  objects d first (cons x members others) =
      opening pretty first (indent d)
      ++ (fields_of x (indent d)
          ++ (members_key pretty
              ++ (members_text d members (objects (suc d) true members)
                  ++ (indent d ++ (b'}' ∷ objects d false others)))))

cost : {X : Type 0} → Forest X → ℕ
cost nil = 1
cost (cons x members others) = 3 + cost members + cost others

cost-items : {X : Type 0} (t : Forest X) → cost t ≡ 1 + 4 * length (items t)
unfolding cost
cost-items nil = omega arith
cost-items (cons x members others) =
    let l = length-append (items members) (items others) in
    omega (arith, cost-items members, cost-items others)

make_indent-eq : (d : ℕ) → d < 2 ^ 60 → make_indent d ≡ ok (replicate ((d - 1) * 4) b' ')
unfolding make_indent
make_indent-eq d h =
    let n : mul_u64 (sub_u64 (max d 1) 1) 4 ≡ (d - 1) * 4 = omega arith in
    let small : ltb ((d - 1) * 4) (2 ^ 63) ≡ true = ground arith in rw (n, small) refl

module _ {X : Type 0} (pretty : Bool) (fields_of : X → List ℕ → List ℕ) (depth_of : X → ℕ) where
  indent_of-eq :
      (d : ℕ) → d < 2 ^ 60 → indent_of pretty fields_of depth_of d ≡ ok (indent pretty fields_of d)
  indent_of-eq d h = elim (Bool-cases pretty) [
    | inl on ↦ rw on (make_indent-eq d h)
    | inr off ↦ rw off refl
  ]

  -- The brackets around what the loop writes.
  print-in_list :
      (f d : ℕ) (x : X) (xs rest : List X) (body : List ℕ)
      → depth_of x ≡ d
      → 0 < d
      → d < 2 ^ 60
      → print_elements pretty fields_of depth_of f d (indent pretty fields_of d) true (x ∷ xs)
        ≡ ok (body, rest)
      → print pretty fields_of depth_of (suc f) (x ∷ xs)
        ≡ ok (in_list pretty fields_of d body, rest)
  unfolding print
  print-in_list f d x xs rest body e pos small h =
      let last : sub_u64 d 1 ≡ d - 1 = sub_u64_le d 1 (omega arith) (omega arith) in
      rw (e, indent_of-eq d small, last, indent_of-eq (d - 1) (omega arith), h) refl

  EndsAt-items :
      (d : ℕ) (t : Forest X) (rest : List X)
      → IsAtDepth depth_of d t
      → EndsAt depth_of d rest
      → EndsAt depth_of (suc d) (items t ++ rest)
  EndsAt-items d nil [] h e = tt
  EndsAt-items d nil (x ∷ xs) h e = omega arith
  EndsAt-items d (cons x members others) rest h e = omega (arith, h.0)

  -- The members of an element, given what the loop writes for them.
  print_members-text :
      (f d : ℕ) (t : Forest X) (rest : List X) (body : List ℕ)
      → 0 < d
      → IsAtDepth depth_of (suc d) t
      → EndsAt depth_of (suc d) rest
      → print_elements pretty fields_of depth_of f
          (suc d)
          (indent pretty fields_of (suc d))
          true
          (items t ++ rest)
        ≡ ok (body, rest)
      → print_members pretty fields_of depth_of (suc (suc f)) d (items t ++ rest)
        ≡ ok (members_text pretty fields_of d t body, rest)
  unfolding print
  print_members-text f d nil [] body pos h e k = refl
  print_members-text f d nil (x ∷ xs) body pos h e k =
      let above : ltb d (depth_of x) ≡ false = ground arith in rw above refl
  print_members-text f d (cons x members others) rest body pos h e k =
      let below : ltb d (depth_of x) ≡ true = ground (arith, h.0) in
      rw below (print-in_list f (suc d) x _ rest body h.0 (omega arith) h.1 k)

  elements-objects :
      (f d : ℕ) (first : Bool) (t : Forest X) (rest : List X)
      → cost t ≤ f
      → 0 < d
      → IsAtDepth depth_of d t
      → EndsAt depth_of d rest
      → print_elements pretty fields_of depth_of f d
          (indent pretty fields_of d)
          first
          (items t ++ rest)
        ≡ ok (objects pretty fields_of d first t, rest)
  unfolding print cost objects
  elements-objects zero d first nil rest enough pos h e = absurd (omega arith)
  elements-objects (suc f) d first nil [] enough pos h e = refl
  elements-objects (suc f) d first nil (x ∷ xs) enough pos h e =
      let above : ltb (depth_of x) d ≡ true = ground arith in rw above refl
  elements-objects zero d first (cons x members others) rest enough pos h e = absurd (omega arith)
  elements-objects (suc zero) d first (cons x members others) rest enough pos h e =
      absurd (omega arith)
  elements-objects (suc (suc zero)) d first (cons x members others) rest enough pos h e =
      absurd (omega arith)
  elements-objects (suc (suc (suc f))) d first (cons x members others) rest enough pos h e =
      let at : ltb (depth_of x) d ≡ false = ground (arith, h.0) in
      let below =
        elements-objects f (suc d) true members (items others ++ rest) (omega arith) (omega arith)
          h.2 (EndsAt-items d others rest h.3 e) in
      let inner =
        print_members-text f d members (items others ++ rest) _ pos h.2
          (EndsAt-items d others rest h.3 e) below in
      let behind = elements-objects (suc (suc f)) d false others rest (omega arith) pos h.3 e in
      rw (at, append_assoc (items members) (items others) rest, inner, behind) refl

-- Printing a result whose elements are those of a forest of one tree or more, with no path of 2 ^ 60
-- names or more, writes the objects of the forest, nested as the forest is, and leaves the iterator
-- at the end.
pub print-objects :
    {X : Type 0} (pretty : Bool) (fields_of : X → List ℕ → List ℕ) (depth_of : X → ℕ) (fuel : ℕ)
    (x : X) (members others : Forest X)
    → IsAtDepth depth_of 1 (cons x members others)
    → 2 + 4 * length (items (cons x members others)) ≤ fuel
    → print pretty fields_of depth_of fuel (items (cons x members others))
      ≡ ok
          (in_list pretty fields_of 1 (objects pretty fields_of 1 true (cons x members others)), [])
print-objects pretty fields_of depth_of zero x members others h enough = absurd (omega arith)
print-objects pretty fields_of depth_of (suc f) x members others h enough =
    let t = cons x members others in
    let n = cost-items t in
    let body =
      elements-objects pretty fields_of depth_of f 1 true t [] (omega arith) (omega arith) h tt in
    print-in_list pretty fields_of depth_of f 1 x (items members ++ items others) [] _ h.0
      (omega arith) h.1 (rw (sym (append-nil (items t))) body)
