-- ===== src/Wire.antt =====
-- The data segment: include/oi/types/st.h and dy.h, oi/exporters/ParsedData.cpp and
-- oi/exporters/TypeCheckingWalker.cpp. This file has the dynamic types and the values of each.
pub mod Varint
pub mod Parsed
pub mod Walker
use object_introspection.Prelude.{ℕ, suc, ◌<◌, ◌^◌, ◌≡◌, Option, none, some, List, [], ◌∷◌, ◌++◌}

mutual
  -- `types::dy::Dynamic`.
  pub data Dynamic : Type 0 where
    unit : Dynamic
    var_int : Dynamic
    pair : Dynamic → Dynamic → Dynamic
    sum : Variants → Dynamic
    list : Dynamic → Dynamic

  -- The span of the variants of a `Sum`.
  pub data Variants : Type 0 where
    nil : Variants
    cons : Dynamic → Variants → Variants

abbrev pub variant : Variants → ℕ → Option Dynamic
variant nil i = none
variant (cons t ts) ℕ.zero = some t
variant (cons t ts) (ℕ.suc i) = variant ts i

abbrev pub variants_size : Variants → ℕ
variants_size nil = 0
variants_size (cons t ts) = suc (variants_size ts)

mutual
  -- What a value of a dynamic type holds.
  pub data Value : Type 0 where
    unit_value : Value
    int_value : ℕ → Value
    pair_value : Value → Value → Value
    sum_value : ℕ → Value → Value
    list_value : Values → Value

  pub data Values : Type 0 where
    none_left : Values
    next : Value → Values → Values

unfoldable pub length_values : Values → ℕ
length_values none_left = 0
length_values (next v vs) = suc (length_values vs)

unfoldable pub append_values : Values → Values → Values
append_values none_left ws = ws
append_values (next v vs) ws = next v (append_values vs ws)

mutual
  -- A value of a type, whose numbers are uint64_t.
  pub data Typed : Value → Dynamic → Type 0 where
    typed_unit : Typed unit_value unit
    typed_int : (n : ℕ) → n < 2 ^ 64 → Typed (int_value n) var_int
    typed_pair :
        {v w : Value} {s t : Dynamic} → Typed v s → Typed w t → Typed (pair_value v w) (pair s t)
    typed_sum :
        {v : Value} {t : Dynamic} (ts : Variants) (i : ℕ)
        → i < 2 ^ 64
        → variant ts i ≡ some t
        → Typed v t
        → Typed (sum_value i v) (sum ts)
    typed_list :
        {vs : Values} {t : Dynamic}
        → length_values vs < 2 ^ 64
        → TypedEach vs t
        → Typed (list_value vs) (list t)

  pub data TypedEach : Values → Dynamic → Type 0 where
    each_none : (t : Dynamic) → TypedEach none_left t
    each_next :
        {v : Value} {vs : Values} {t : Dynamic}
        → Typed v t
        → TypedEach vs t
        → TypedEach (next v vs) t
