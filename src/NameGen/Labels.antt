-- ===== src/NameGen/Labels.antt =====
-- The names that the pass gives to classes, enums and typedefs, in one state and in the later ones.
use object_introspection.Prelude.{
  zero, suc, ◌+◌, ◌<◌, ◌≡◌, refl, sym, ◌∙◌, ap, subst, List, [], ◌∷◌, Option, none, some, true,
  false, arith, Bool-cases, inl, inr, String, ◌==◌, eq_of_==, ==_self, get_elem?, set,
  get_elem?-set_self, get_elem?-set_ne, lt-length_of_get_elem?,
}
use object_introspection.Types.{Ref, Node, class_node, enum_node, typedef}
use object_introspection.Store.{deref, put}
use object_introspection.Visitor.{contains}
use object_introspection.NameGen.{Naming, enter, write}
use object_introspection.NameGen.Texts.{deduplicate}
use object_introspection.NameGen.Numbers.{read_number, read_number-deduplicate}

-- The generated name of a class, an enum or a typedef.
abbrev pub label : Option Node → Option String
label (some (class_node c)) = some c.name
label (some (enum_node e)) = some e.name
label (some (typedef t)) = some t.name
label _ = none

abbrev pub Seen : Naming → Ref → Type 0
Seen s x = contains s.visited x ≡ true

abbrev pub HasLabel : Naming → Ref → String → Type 0
HasLabel s x a = label (deref s.graph x) ≡ some a

-- The labels of the nodes visited end in numbers below `n`, each in its own.
pub record Named (s : Naming) : Type 0 where
  pub below : (x : Ref) (a : String) → Seen s x → HasLabel s x a → read_number 0 a < s.n
  pub apart :
      (x y : Ref) (a b : String)
      → Seen s x
      → Seen s y
      → HasLabel s x a
      → HasLabel s y b
      → read_number 0 a ≡ read_number 0 b
      → x ≡ y

pub record Later (s s' : Naming) : Type 0 where
  pub more : (x : Ref) → Seen s x → Seen s' x
  pub same : (x : Ref) → Seen s x → label (deref s'.graph x) ≡ label (deref s.graph x)
  pub named : Named s'

pub Later-self : (s : Naming) → Named s → Later s s
Later-self s h = record { more = λ x k. k; same = λ x k. refl; named = h }

pub Later-trans : (s t u : Naming) → Later s t → Later t u → Later s u
Later-trans s t u p q = record {
  more = λ x k. q.more x (p.more x k);
  same = λ x k. q.same x (p.more x k) ∙ p.same x k;
  named = q.named;
}

-- States whose visited nodes and labels are those of a state before.
same_labels :
    (s s' : Naming)
    → s'.n ≡ s.n
    → ((x : Ref) → Seen s x → Seen s' x)
    → ((x : Ref) → label (deref s'.graph x) ≡ label (deref s.graph x))
    → ((x : Ref) (a : String) → Seen s' x → HasLabel s x a → Seen s x)
    → Named s
    → Later s s'
same_labels s s' e more same back h = record {
  more = more;
  same = λ x _. same x;
  named = record {
    below = λ x a k l.
        let l' = sym (same x) ∙ l in let lt = h.below x a (back x a k l') l' in omega arith;
    apart = λ x y a b k k' l l' eq.
        let u = sym (same x) ∙ l in
        let v = sym (same y) ∙ l' in h.apart x y a b (back x a k u) (back y b k' v) u v eq;
  };
}

-- Entering a node that is visited, or that gets no label.
pub Later-again : (r : Ref) (s : Naming) → Seen s r → Named s → Later s (enter r s).1
Later-again r s seen h =
    same_labels s (enter r s).1 refl (λ x k. ground arith) (λ x. refl)
      (λ x a k l. elim (Bool-cases (x == r)) [
        | inl e ↦ subst (Seen s) (sym (eq_of_== x r e)) seen
        | inr other ↦ ground arith
      ])
      h

pub enter-Later :
    (r : Ref) (s : Naming) → label (deref s.graph r) ≡ none → Named s → Later s (enter r s).1
enter-Later r s bare h =
    same_labels s (enter r s).1 refl (λ x k. ground arith) (λ x. refl)
      (λ x a k l. elim (Bool-cases (x == r)) [
        | inl e ↦ cc (l, ap (λ y. label (deref s.graph y)) (eq_of_== x r e), bare)
        | inr other ↦ ground arith
      ])
      h

label-set :
    (xs : List Node) (r : Ref) (n : Node)
    → label (some n) ≡ none
    → label (get_elem? xs r) ≡ none
    → (x : Ref) → label (get_elem? (set xs r n) x) ≡ label (get_elem? xs x)
label-set [] r n h k x = refl
label-set (y ∷ ys) zero n h k zero = h ∙ sym k
label-set (y ∷ ys) zero n h k (suc x) = refl
label-set (y ∷ ys) (suc r) n h k zero = refl
label-set (y ∷ ys) (suc r) n h k (suc x) = label-set ys r n h k x

-- A node without a label is written in the place of another.
pub write-Later :
    (r : Ref) (n : Node) (s : Naming)
    → label (some n) ≡ none
    → label (deref s.graph r) ≡ none
    → Named s
    → Later s (write r n s)
write-Later r n s h k =
    same_labels s (write r n s) refl (λ x k. k) (label-set s.graph.nodes r n h k) (λ x a k l. k)

-- A new node gets a label with the next number.
pub label-Later :
    (r : Ref) (k n : Node) (a : String) (s : Naming)
    → contains s.visited r ≡ false
    → deref s.graph r ≡ some k
    → label (some n) ≡ some (deduplicate s.n a)
    → Named s
    → Later s (record (enter r s).1 { n = s.n + 1; graph = put r n s.graph })
label-Later r k n a s new at labelled h = record {
  more = λ x seen. ground arith;
  same = λ x seen. ap label (kept x (elsewhere x seen));
  named = record {
    below = λ x b seen l. elim (Bool-cases (x == r)) [
      | inl e ↦ let num = number x b e l in omega arith
      | inr other ↦
          let lt = h.below x b (ground arith) (ap label (sym (kept x other)) ∙ l) in omega arith
    ];
    apart = λ x y b c seen seen' l l' eq. elim (Bool-cases (x == r)) [
      | inl e ↦ elim (Bool-cases (y == r)) [
        | inl e' ↦ eq_of_== x r e ∙ sym (eq_of_== y r e')
        | inr other ↦
            let lt = h.below y c (ground arith) (ap label (sym (kept y other)) ∙ l') in
            let num = number x b e l in absurd (omega arith)
      ]
      | inr other ↦ elim (Bool-cases (y == r)) [
        | inl e' ↦
            let lt = h.below x b (ground arith) (ap label (sym (kept x other)) ∙ l) in
            let num = number y c e' l' in absurd (omega arith)
        | inr other' ↦
            h.apart x y b c (ground arith) (ground arith) (ap label (sym (kept x other)) ∙ l)
              (ap label (sym (kept y other')) ∙ l') eq
      ]
    ];
  };
}
  where
    kept : (x : Ref) → (x == r) ≡ false → deref (put r n s.graph) x ≡ deref s.graph x
    kept x other = get_elem?-set_ne s.graph.nodes n (λ e. cc (other, sym (==_self x), e))

    elsewhere : (x : Ref) → Seen s x → (x == r) ≡ false
    elsewhere x seen = elim (Bool-cases (x == r)) [
      | inl e ↦ cc (seen, ap (contains s.visited) (eq_of_== x r e), new)
      | inr other ↦ other
    ]

    number :
        (x : Ref) (b : String)
        → (x == r) ≡ true
        → label (deref (put r n s.graph) x) ≡ some b
        → read_number 0 b ≡ s.n
    number x b e l =
        let here : deref (put r n s.graph) x ≡ some n =
          rw (eq_of_== x r e)
            (get_elem?-set_self s.graph.nodes r n (lt-length_of_get_elem? s.graph.nodes r at)) in
        let same : deduplicate s.n a ≡ b = cc (labelled, ap label here, l) in
        ap (read_number 0) (sym same) ∙ read_number-deduplicate s.n a
