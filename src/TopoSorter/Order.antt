-- ===== src/TopoSorter/Order.antt =====
-- What the sorter promises: an order in which every type stands once, behind the types it needs.
use object_introspection.Prelude.{
  All-map, ℕ, zero, suc, ◌+◌, ◌≡◌, ◌<◌, ◌≤◌, refl, List, [], ◌∷◌, ◌++◌, true, false, none, some,
  arith, length, All, ◌==◌, ◌||◌, Bool-cases, inl, inr, ◌⊎◌, if◌then◌else◌, ==_self, eq_of_==, ◌∙◌,
  ap,
}
use object_introspection.Types.{Ref, Node, Dummy, DummyAllocator, dummy, dummy_allocator}
use object_introspection.Store.{TypeGraph, deref}
use object_introspection.Visitor.{contains}
use object_introspection.TopoSorter.Needs.{needs, put_off}
use object_introspection.TopoSorter.{calls_before, children_of}

abbrev pub delayed : TypeGraph → Node → List Ref
delayed g n = put_off (calls_before g n) ++ children_of n

-- What the visit of an address puts off.
abbrev pub delayed_at : TypeGraph → Ref → List Ref
delayed_at g r = elim (deref g r) [ none ↦ [] | some n ↦ delayed g n ]

-- An address with a node.
abbrev pub Exists : TypeGraph → Ref → Type 0
Exists g r = (n : Node) × (deref g r ≡ some n)

abbrev pub Has : List Ref → Ref → Type 0
Has xs r = contains xs r ≡ true

-- A type is declared by a list: it stands there, or it is a dummy, which needs no declaration, or an
-- allocator's dummy for a type that is declared.
pub data Declared (g : TypeGraph) (sorted : List Ref) : Ref → Type 0 where
  stands : {r : Ref} → Has sorted r → Declared g sorted r
  empty : {r : Ref} {d : Dummy} → deref g r ≡ some (dummy d) → Declared g sorted r
  allocates :
      {r : Ref} {d : DummyAllocator}
      → deref g r ≡ some (dummy_allocator d)
      → Declared g sorted d.type
      → Declared g sorted r

-- Every type of the list stands there once, behind the declarations of all that it needs.
pub data Sorted (g : TypeGraph) : List Ref → Type 0 where
  nothing : Sorted g []
  next :
      {sorted : List Ref} (r : Ref) {n : Node}
      → Sorted g sorted
      → contains sorted r ≡ false
      → deref g r ≡ some n
      → All (Declared g sorted) (needs g n)
      → Sorted g (sorted ++ r ∷ [])

pub Declared-mono :
    {g : TypeGraph} {xs ys : List Ref} {r : Ref}
    → ((x : Ref) → Has xs x → Has ys x)
    → Declared g xs r
    → Declared g ys r
Declared-mono sub (stands h) = stands (sub _ h)
Declared-mono sub (empty e) = empty e
Declared-mono sub (allocates e d) = allocates e (Declared-mono sub d)

pub contains-append :
    (xs ys : List Ref) (r : Ref) → contains (xs ++ ys) r ≡ (contains xs r || contains ys r)
contains-append [] ys r = refl
contains-append (x ∷ xs) ys r = ground (arith, contains-append xs ys r)

pub Has-append_left : (xs ys : List Ref) (r : Ref) → Has xs r → Has (xs ++ ys) r
Has-append_left xs ys r h = ground (arith, contains-append xs ys r)

pub Has-append_end : (xs : List Ref) (r : Ref) → Has (xs ++ r ∷ []) r
Has-append_end xs r = ground (arith, contains-append xs (r ∷ []) r)

pub Has-snoc : (xs : List Ref) (r x : Ref) → Has (xs ++ r ∷ []) x → Has xs x ⊎ (x ≡ r)
Has-snoc xs r x h = elim (Bool-cases (contains xs x)) [
  | inl old ↦ inl old
  | inr new ↦ inr (ground (arith, contains-append xs (r ∷ []) x))
]

pub Sorted-needs :
    {g : TypeGraph} {sorted : List Ref}
    → Sorted g sorted
    → (x : Ref) → Has sorted x
    → (n : Node) × (deref g x ≡ some n) × All (Declared g sorted) (needs g n)
Sorted-needs nothing x h = cc
Sorted-needs {g = g} (next {sorted = sorted} r {n = n} before new e all) x h =
    let grow : (y : Ref) → Declared g sorted y → Declared g (sorted ++ r ∷ []) y =
      λ y d. Declared-mono (λ z has. Has-append_left sorted (r ∷ []) z has) d in
    elim (Has-snoc sorted r x h) [
      | inl old ↦
          let (m, e', all') = Sorted-needs before x old in (m, e', All-map grow (needs g m) all')
      | inr same ↦ (n, ap (deref g) same ∙ e, All-map grow (needs g n) all)
    ]

pub All-of_Has {κ} : {P : Ref → Type κ} (xs : List Ref) → ((x : Ref) → Has xs x → P x) → All P xs
All-of_Has [] h = tt
All-of_Has (x ∷ xs) h =
    let here : Has (x ∷ xs) x = ground (arith, ==_self x) in
    (h x here, All-of_Has xs (λ y has. h y (ground arith)))

-- The work that visiting the nodes below an address may still put off.
abbrev pub weight : TypeGraph → Ref → ℕ
weight g r = length (delayed_at g r)

unfoldable pub unvisited : TypeGraph → List Ref → ℕ → ℕ
unvisited g visited zero = 0
unvisited g visited (suc k) = (if contains visited k then 0 else weight g k) + unvisited g visited k

unvisited_above :
    (g : TypeGraph) (visited : List Ref) (r k : ℕ)
    → k ≤ r
    → unvisited g (r ∷ visited) k ≡ unvisited g visited k
unfolding unvisited
unvisited_above g visited r zero h = refl
unvisited_above g visited r (suc k) h =
    let rest = unvisited_above g visited r k (omega arith) in
    let other : (k == r) ≡ false = ground arith in rw (other, rest)

-- Marking a new node as visited takes its share off.
pub unvisited-mark :
    (g : TypeGraph) (visited : List Ref) (r k : ℕ)
    → r < k
    → contains visited r ≡ false
    → unvisited g (r ∷ visited) k + weight g r ≡ unvisited g visited k
unfolding unvisited
unvisited-mark g visited r zero h new = elim h [ ]
unvisited-mark g visited r (suc k) h new = elim (Bool-cases (k == r)) [
  | inl same ↦
      let e : k ≡ r = eq_of_== k r same in
      let rest : unvisited g (r ∷ visited) k ≡ unvisited g visited k =
        unvisited_above g visited r k (omega (arith, e)) in
      let new' : contains visited k ≡ false = ap (contains visited) e ∙ new in
      let w : weight g k ≡ weight g r = ap (weight g) e in rw (same, new', rest) (omega (arith, w))
  | inr other ↦
      let low : r < k = ground arith in
      let rest = unvisited-mark g visited r k low new in rw other (omega (arith, rest))
]
