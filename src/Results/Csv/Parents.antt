-- ===== src/Results/Csv/Parents.antt =====
-- The last column of the table: each row names its parent.
use object_introspection.Prelude.{
  ℕ, suc, ◌+◌, ◌-◌, ◌^◌, ◌≤◌, ◌<◌, ◌≡◌, refl, sym, ◌∙◌, ap, List, [], ◌∷◌, ◌++◌, Option, some,
  Outcome, ok, err, dangling, arith, Bool-cases, inl, inr, ltb, if◌then◌else◌, length,
  length-append, false, get_elem?, add_u64,
}
use object_introspection.Results.{Element}
use object_introspection.Results.Csv.{
  Csv, pop_to, row, print_element, print_elements, print, print_header, resize_one,
}

-- The ids and depths of the elements before, the latest first.
abbrev pub History : Type 0
History = List (ℕ × ℕ)

-- The latest element that is less deep, or 0.
unfoldable pub nearest : ℕ → History → ℕ
nearest d [] = 0
nearest d ((i, k) ∷ hs) = let rest = nearest d hs in if ltb k d then i else rest

-- The rows that are wanted: consecutive ids, and the parent of each.
unfoldable pub rows : ℕ → List Element → History → List ℕ
unfolding nearest row
rows id [] hs = []
rows id (e ∷ es) hs =
    let d = length e.type_path in
    row (suc id) e (nearest d hs) ++ rows (suc id) es ((suc id, d) ∷ hs)

-- No path is empty, and none is more than one step deeper than the one before it.
abbrev pub IsPreorder : ℕ → List Element → Type 0
IsPreorder last [] = Unit
IsPreorder last (e ∷ es) =
    (1 ≤ length e.type_path) × (length e.type_path ≤ suc last) × IsPreorder (length e.type_path) es

-- The entry of the stack for each depth, counted from the bottom, is the parent at that depth.
record IsParents (stack : List ℕ) (last : ℕ) (hs : History) : Type 0 where
  sized : length stack ≡ suc last
  holds : (d : ℕ) → 1 ≤ d → d ≤ suc last → get_elem? stack (suc last - d) ≡ some (nearest d hs)

length-pop_to : (d : ℕ) (xs : List ℕ) → d ≤ length xs → length (pop_to d xs) ≡ d
unfolding pop_to
length-pop_to d [] h = omega arith
length-pop_to d (x ∷ xs) h = elim (Bool-cases (ltb d (length (x ∷ xs)))) [
  | inl long ↦ rw long (length-pop_to d xs (ground arith))
  | inr fits ↦ rw fits (ground arith)
]

get_elem?-pop_to :
    (d : ℕ) (xs : List ℕ) (j : ℕ)
    → d ≤ length xs
    → get_elem? (pop_to d xs) j ≡ get_elem? xs (length xs - d + j)
unfolding pop_to
get_elem?-pop_to d [] j h = ap (get_elem? {A = ℕ} []) (let e : j ≡ 0 - d + j = omega arith in e)
get_elem?-pop_to d (x ∷ xs) j h = elim (Bool-cases (ltb d (length (x ∷ xs)))) [
  | inl long ↦
      let d_le : d ≤ length xs = ground arith in
      let e : suc (length xs - d + j) ≡ suc (length xs) - d + j = omega arith in
      rw long (get_elem?-pop_to d xs j d_le ∙ ap (get_elem? (x ∷ xs)) e)
  | inr fits ↦
      let e : j ≡ suc (length xs) - d + j = ground arith in rw fits (ap (get_elem? (x ∷ xs)) e)
]

pushed :
    (st hs' : List ℕ) (last : ℕ) (hs : History) (d id : ℕ)
    → IsParents st last hs
    → 1 ≤ d
    → d ≤ suc last
    → pop_to d st ≡ hs'
    → IsParents (id ∷ hs') d ((id, d) ∷ hs)
unfolding nearest
pushed st hs' last hs d id p low high e =
    let len : length hs' ≡ d = ap length (sym e) ∙ length-pop_to d st (omega (arith, p.sized)) in
    record {
      sized = ap suc len;
      holds = λ k low_k high_k. elim (Bool-cases (ltb d k)) [
        | inl new ↦ let e₀ : suc d - k ≡ 0 = ground arith in rw (new, e₀) refl
        | inr old ↦
            let k_le : k ≤ d = ground arith in
            let e₁ : suc d - k ≡ suc (d - k) = omega arith in
            let e₂ : length st - d + (d - k) ≡ suc last - k = omega (arith, p.sized) in
            rw (old, e₁)
              (ap (λ l. get_elem? l (d - k)) (sym e)
                ∙ get_elem?-pop_to d st (d - k) (omega (arith, p.sized))
                ∙ ap (get_elem? st) e₂
                ∙ p.holds k low_k (omega arith))
      ];
    }

some-injective : {x y : ℕ} → Path (Option ℕ) (some x) (some y) → x ≡ y
some-injective h = cc

nearest_none : (d : ℕ) → some 0 ≡ some (nearest d [])
unfolding nearest
nearest_none d = refl

top :
    (st : List ℕ) (last : ℕ) (hs : History) (d : ℕ)
    → IsParents st last hs
    → 1 ≤ d
    → d ≤ suc last
    → (up : List ℕ) × (pop_to d st ≡ nearest d hs ∷ up)
top st last hs d p low high =
    let len = length-pop_to d st (omega (arith, p.sized)) in
    let at : length st - d + 0 ≡ suc last - d = omega (arith, p.sized) in
    split (pop_to d st) len
      (get_elem?-pop_to d st 0 (omega (arith, p.sized)) ∙ ap (get_elem? st) at ∙ p.holds d low high)
  where
    split :
        (xs : List ℕ)
        → length xs ≡ d
        → get_elem? xs 0 ≡ some (nearest d hs)
        → (up : List ℕ) × (xs ≡ nearest d hs ∷ up)
    split [] l h = cc
    split (x ∷ xs) l h = (xs, ap (λ y. y ∷ xs) (some-injective h))

print_element_lem :
    (e : Element) (s : Csv) (parent : ℕ) (up : List ℕ)
    → pop_to (length e.type_path) s.parent_id_stack ≡ parent ∷ up
    → s.id + 1 < 2 ^ 64
    → print_element e s
      ≡ ok (
        row (suc s.id) e parent,
        record { id = suc s.id; parent_id_stack = suc s.id ∷ parent ∷ up },
      )
unfolding print_element
print_element_lem e s parent up popped b =
    let id : add_u64 s.id 1 ≡ suc s.id = omega arith in
    ap
      (λ (l : List ℕ).
        let o : Outcome (List ℕ × Csv) = elim l [
          | [] ↦ err dangling
          | p ∷ ps ↦ ok (
            row (add_u64 s.id 1) e p,
            record { id = add_u64 s.id 1; parent_id_stack = add_u64 s.id 1 ∷ p ∷ ps },
          )
        ] in
        o)
      popped
    ∙ ap
        (λ (i : ℕ).
          let o : Outcome (List ℕ × Csv) =
            ok (row i e parent, record { id = i; parent_id_stack = i ∷ parent ∷ up }) in
          o)
        id

-- The depth of the last element, or the one given.
abbrev pub last_depth : ℕ → List Element → ℕ
last_depth d [] = d
last_depth d (e ∷ es) = last_depth (length e.type_path) es

resize_one-bottom : (up : List ℕ) (b : ℕ) → resize_one (up ++ b ∷ []) ≡ b ∷ []
unfolding resize_one
resize_one-bottom [] b = refl
resize_one-bottom (x ∷ []) b = refl
resize_one-bottom (x ∷ y ∷ xs) b = resize_one-bottom (y ∷ xs) b

pop_to-bottom :
    (d : ℕ) (up : List ℕ) (b : ℕ)
    → 1 ≤ d
    → (up' : List ℕ) × (pop_to d (up ++ b ∷ []) ≡ up' ++ b ∷ [])
unfolding pop_to
pop_to-bottom d [] b h = let e : ltb d 1 ≡ false = ground arith in ([], rw e refl)
pop_to-bottom d (x ∷ up) b h = elim (Bool-cases (ltb d (length (x ∷ (up ++ b ∷ []))))) [
  | inl long ↦ let (up', e) = pop_to-bottom d up b h in (up', rw long e)
  | inr fits ↦ (x ∷ up, rw fits refl)
]

-- The state that is left: numbered on, with a stack as high as the last element is deep, whose bottom
-- is still 0.
pub record Leaves (es : List Element) (id last : ℕ) (s' : Csv) : Type 0 where
  pub numbered : s'.id ≡ id + length es
  pub up : List ℕ
  pub bottom : s'.parent_id_stack ≡ up ++ 0 ∷ []
  pub high : length up ≡ last_depth last es

prints :
    (es : List Element) (s : Csv) (last : ℕ) (hs : History) (up : List ℕ)
    → IsParents s.parent_id_stack last hs
    → s.parent_id_stack ≡ up ++ 0 ∷ []
    → IsPreorder last es
    → s.id + length es < 2 ^ 64
    → (s' : Csv) × (print_elements es s ≡ ok (rows s.id es hs, s')) × Leaves es s.id last s'
unfolding print_elements rows
prints [] s last hs up p bottom q b =
    let len : length up + 1 ≡ suc last =
      sym (length-append up (0 ∷ [])) ∙ ap length (sym bottom) ∙ p.sized in
    (s, refl, record { numbered = omega arith; up = up; bottom = bottom; high = omega arith })
prints (e ∷ es) s last hs up p bottom q b =
    let d = length e.type_path in
    let (left, popped) = top s.parent_id_stack last hs d p q.0 q.1 in
    let (up', kept) = pop_to-bottom d up 0 q.0 in
    let s₁ : Csv = record { id = suc s.id; parent_id_stack = suc s.id ∷ nearest d hs ∷ left } in
    let bottom₁ : suc s.id ∷ nearest d hs ∷ left ≡ (suc s.id ∷ up') ++ 0 ∷ [] =
      ap (λ l. suc s.id ∷ l) (sym popped ∙ ap (pop_to d) bottom ∙ kept) in
    let (s₂, rest, leaves) =
      prints es s₁ d ((suc s.id, d) ∷ hs) (suc s.id ∷ up')
        (pushed s.parent_id_stack (nearest d hs ∷ left) last hs d (suc s.id) p q.0 q.1 popped)
        bottom₁ q.2 (omega arith) in
    (
      s₂,
      rw (print_element_lem e s (nearest d hs) left popped (omega arith), rest) refl,
      record {
        numbered = omega (arith, leaves.numbered);
        up = leaves.up;
        bottom = leaves.bottom;
        high = leaves.high;
      },
    )

-- Where the stack of parents has 0 at its bottom, whatever an earlier result left above it, where the
-- last id and the number of elements add up to less than 2 ^ 64, and for elements in preorder (no
-- path is empty, the first has one name, and none is more than one step deeper than the one before
-- it), the printer returns: the header, and a row for each element, numbered on from the last id,
-- whose last column is the id of the latest of these elements before it that is less deep, or 0 if
-- there is none. In the state that is left the id is counted up by the number of elements, and the
-- stack has 0 at its bottom and above it as many entries as the last element has names, none if
-- there is no element.
pub print-rows :
    (es : List Element) (s : Csv) (up : List ℕ)
    → s.parent_id_stack ≡ up ++ 0 ∷ []
    → IsPreorder 0 es
    → s.id + length es < 2 ^ 64
    → (s' : Csv) × (print es s ≡ ok (print_header ++ rows s.id es [], s')) × Leaves es s.id 0 s'
unfolding print
print-rows es s up bottom q b =
    let start : IsParents (0 ∷ []) 0 [] = record {
      sized = refl;
      holds = λ d low high. let e : 1 - d ≡ 0 = omega arith in rw e (nearest_none d);
    } in
    let one : resize_one s.parent_id_stack ≡ 0 ∷ [] =
      ap resize_one bottom ∙ resize_one-bottom up 0 in
    let s₀ : Csv = record { id = s.id; parent_id_stack = 0 ∷ [] } in
    let (s', e, leaves) = prints es s₀ 0 [] [] start refl q b in (s', rw (one, e) refl, leaves)
