-- ===== src/Layout/Inner.antt =====
-- The size and the alignment of a node, as far as they depend on those of the node inside it.
use object_introspection.Prelude.{
  out_of_fuel, err, ◌>>=◌, ◌≢◌, ◌*◌, ◌%◌, ◌^◌, ℕ, ◌≡◌, refl, Option, none, some, Outcome, ok,
  >>=-eq-ok,
}
use object_introspection.Types.{
  PrimitiveKind, float80, int8, primitive_size, primitive, Ref, Node, array, typedef, capture_keys,
}
use object_introspection.Layout.{node_size, node_align}

-- The node whose size or alignment a node takes for its own.
abbrev pub inner : Node → Option Ref
inner (array t) = some t.element_type
inner (typedef t) = some t.underlying_type
inner (capture_keys t) = some t.underlying_type
inner _ = none

pub node_size_mono :
    (rec rec' : Ref → Outcome ℕ) (n : Node) (s : ℕ)
    → ((r : Ref) (a : ℕ) → rec r ≡ ok a → rec' r ≡ ok a)
    → node_size rec n ≡ ok s
    → node_size rec' n ≡ ok s
node_size_mono rec rec' (array t) s more h =
    let (a, e, k) = >>=-eq-ok (rec t.element_type) _ h in rw (more t.element_type a e) k
node_size_mono rec rec' (typedef t) s more h = more t.underlying_type s h
node_size_mono rec rec' (capture_keys t) s more h = more t.underlying_type s h
node_size_mono rec rec' _ s more h = h

pub node_size_agree :
    (rec rec' : Ref → Outcome ℕ) (n : Node)
    → ((x : Ref) → inner n ≡ some x → rec x ≡ rec' x)
    → node_size rec n ≡ node_size rec' n
node_size_agree rec rec' (array t) same = rw (same t.element_type refl)
node_size_agree rec rec' (typedef t) same = same t.underlying_type refl
node_size_agree rec rec' (capture_keys t) same = same t.underlying_type refl
node_size_agree rec rec' _ same = refl

pub node_align_agree :
    (rec rec' : Ref → Outcome ℕ) (n : Node)
    → ((x : Ref) → inner n ≡ some x → rec x ≡ rec' x)
    → node_align rec n ≡ node_align rec' n
node_align_agree rec rec' (array t) same = same t.element_type refl
node_align_agree rec rec' (typedef t) same = same t.underlying_type refl
node_align_agree rec rec' (capture_keys t) same = same t.underlying_type refl
node_align_agree rec rec' _ same = refl

primitive_size_answers : (k : PrimitiveKind) → primitive_size k ≢ out_of_fuel
primitive_size_answers float80 e = cc
primitive_size_answers int8 e = cc
primitive_size_answers _ e = cc

-- The size of a node is a size or an error if that of the inner node is.
pub node_size_answers :
    (rec : Ref → Outcome ℕ) (n : Node)
    → ((x : Ref) → inner n ≡ some x → rec x ≢ out_of_fuel)
    → node_size rec n ≢ out_of_fuel
node_size_answers rec (array t) answers = scaled (rec t.element_type) (answers t.element_type refl)
  where
    scaled : (o : Outcome ℕ) → o ≢ out_of_fuel → (o >>= λ s. ok (t.len * s % 2 ^ 64)) ≢ out_of_fuel
    scaled (ok s) h e = cc
    scaled (err x) h e = cc
    scaled out_of_fuel h e = h refl
node_size_answers rec (typedef t) answers = answers t.underlying_type refl
node_size_answers rec (capture_keys t) answers = answers t.underlying_type refl
node_size_answers rec (primitive k) answers = primitive_size_answers k
node_size_answers rec _ answers = λ e. cc

pub node_align_answers :
    (rec : Ref → Outcome ℕ) (n : Node)
    → ((x : Ref) → inner n ≡ some x → rec x ≢ out_of_fuel)
    → node_align rec n ≢ out_of_fuel
node_align_answers rec (array t) answers = answers t.element_type refl
node_align_answers rec (typedef t) answers = answers t.underlying_type refl
node_align_answers rec (capture_keys t) answers = answers t.underlying_type refl
node_align_answers rec (primitive k) answers = primitive_size_answers k
node_align_answers rec _ answers = λ e. cc
