-- ===== src/Results/Json.antt =====
-- include/oi/exporters/Json.h: a result as nested JSON objects. A text is the list of its bytes, and an
-- iterator the list of the elements that it still has to give.
pub mod Forests
pub mod Strings
use object_introspection.Prelude.{
  ℕ, zero, suc, ◌+◌, ◌/◌, ◌%◌, ◌^◌, List, [], ◌∷◌, ◌++◌, Option, none, some, Bool, true, false,
  Outcome, ok, err, runtime_error, dangling, out_of_fuel, ◌>>=◌, if◌then◌else◌, ltb, ◌==◌, length,
  max, sub_u64, mul_u64, replicate, String, codes, to_string, get_or,
}
use object_introspection.Results.{
  Element, ContainerStats, ElementData, no_data, pointer_data, scalar, text,
}
use object_introspection.Results.Sized.{SizedElement}

abbrev pub quote : ℕ
quote = 34

abbrev pub tab : Bool → List ℕ
tab pretty = if pretty then b' ' ∷ b' ' ∷ [] else []

abbrev pub space : Bool → List ℕ
space pretty = if pretty then b' ' ∷ [] else []

abbrev pub endl : Bool → List ℕ
endl pretty = if pretty then 10 ∷ [] else []

-- A std::string of this many spaces; one longer than 2 ^ 63 - 1 is an exception.
unfoldable pub make_indent : ℕ → Outcome (List ℕ)
make_indent depth =
    let n : ℕ = mul_u64 (sub_u64 (max depth 1) 1) 4 in
    if ltb n (2 ^ 63) then ok (replicate n b' ') else err (runtime_error "length_error")

-- `tab() << '"' << name << "\":" << space()`
unfoldable pub field_name : Bool → String → List ℕ
field_name pretty name = tab pretty ++ (quote ∷ (codes name ++ (quote ∷ b':' ∷ space pretty)))

-- `',' << endl() << indent`
unfoldable pub field_end : Bool → List ℕ → List ℕ
field_end pretty indent = b',' ∷ (endl pretty ++ indent)

unfoldable pub print_string_field : Bool → String → String → List ℕ → List ℕ
unfolding field_name field_end
print_string_field pretty name value indent =
    field_name pretty name ++ (quote ∷ (codes value ++ (quote ∷ field_end pretty indent)))

unfoldable pub print_bool_field : Bool → String → Bool → List ℕ → List ℕ
unfolding field_name field_end
print_bool_field pretty name value indent =
    field_name pretty name ++ (codes (if value then "true" else "false") ++ field_end pretty indent)

unfoldable pub print_unsigned_field : Bool → String → ℕ → List ℕ → List ℕ
unfolding field_name field_end
print_unsigned_field pretty name value indent =
    field_name pretty name ++ (codes (to_string value) ++ field_end pretty indent)

abbrev hex_digit : ℕ → ℕ
hex_digit d = if ltb d 10 then 48 + d else 87 + d

-- `std::hex`: at most 16 digits for a word.
unfoldable pub hex_digits : ℕ → ℕ → List ℕ
hex_digits zero n = []
hex_digits (suc f) n =
    let high = hex_digits f (n / 16) in
    if ltb n 16 then hex_digit n ∷ [] else high ++ (hex_digit (n % 16) ∷ [])

unfoldable pub print_pointer_field : Bool → String → ℕ → List ℕ → List ℕ
unfolding field_name field_end hex_digits
print_pointer_field pretty name value indent =
    field_name pretty name
    ++ (quote ∷ b'0' ∷ b'x' ∷ (hex_digits 16 value ++ (quote ∷ field_end pretty indent)))

-- The loop of `printListField`.
unfoldable pub list_items : Bool → Bool → List String → List ℕ
list_items pretty first [] = []
list_items pretty first (el ∷ els) =
    (if first then [] else b',' ∷ space pretty)
    ++ (quote ∷ (codes el ++ (quote ∷ list_items pretty false els)))

unfoldable pub print_list_field : Bool → String → List String → List ℕ → List ℕ
unfolding field_name field_end list_items
print_list_field pretty name range indent =
    field_name pretty name
    ++ (b'[' ∷ (list_items pretty true range ++ (b']' ∷ field_end pretty indent)))

abbrev pointer_field : Bool → Option ℕ → List ℕ → List ℕ
pointer_field pretty none indent = []
pointer_field pretty (some p) indent = print_unsigned_field pretty "pointer" p indent

abbrev payload_field : Bool → ElementData → List ℕ → List ℕ
payload_field pretty no_data indent = []
payload_field pretty (pointer_data p) indent = print_pointer_field pretty "data" p indent
payload_field pretty (scalar n) indent = print_unsigned_field pretty "data" n indent
payload_field pretty (text s) indent = print_string_field pretty "data" s indent

abbrev stats_fields : Bool → Option ContainerStats → List ℕ → List ℕ
stats_fields pretty none indent = []
stats_fields pretty (some s) indent =
    print_unsigned_field pretty "length" s.len indent
    ++ print_unsigned_field pretty "capacity" s.capacity indent

abbrev is_set_field : Bool → Option Bool → List ℕ → List ℕ
is_set_field pretty none indent = []
is_set_field pretty (some b) indent = print_bool_field pretty "is_set" b indent

-- `printFields` of an Element and of a SizedElement.
unfoldable pub print_fields : Bool → Element → List ℕ → List ℕ
unfolding print_string_field print_list_field print_unsigned_field print_pointer_field
    print_bool_field
print_fields pretty el indent =
    print_string_field pretty "name" el.name indent
    ++ (print_list_field pretty "typePath" el.type_path indent
        ++ (print_list_field pretty "typeNames" el.type_names indent
            ++ (print_unsigned_field pretty "staticSize" el.static_size indent
                ++ (print_unsigned_field pretty "exclusiveSize" el.exclusive_size indent
                    ++ (pointer_field pretty el.pointer indent
                        ++ (payload_field pretty el.payload indent
                            ++ (stats_fields pretty el.container_stats indent
                                ++ (is_set_field pretty el.is_set_stats indent
                                    ++ print_bool_field pretty "is_primitive" el.is_primitive
                                        indent))))))))

unfoldable pub print_sized_fields : Bool → SizedElement → List ℕ → List ℕ
unfolding print_unsigned_field print_fields
print_sized_fields pretty el indent =
    print_unsigned_field pretty "size" el.size indent ++ print_fields pretty el.inner indent

-- The end of `print`.
abbrev pub closing : Bool → ℕ → List ℕ → List ℕ
closing pretty depth last_indent =
    if depth == 1
    then endl pretty ++ (b']' ∷ endl pretty)
    else endl pretty ++ (last_indent ++ (tab pretty ++ (b']' ∷ endl pretty)))

-- What stands around the members of an element.
abbrev pub opening : Bool → Bool → List ℕ → List ℕ
opening pretty first indent =
    (if first then [] else b',' ∷ (endl pretty ++ indent)) ++ (b'{' ∷ (endl pretty ++ indent))

abbrev pub members_key : Bool → List ℕ
members_key pretty = tab pretty ++ (codes "\"members\":" ++ space pretty)

-- `print` for any kind of element, with its fields and the length of its type path.
module _ {X : Type 0} (pretty : Bool) (fields_of : X → List ℕ → List ℕ) (depth_of : X → ℕ) where
  abbrev pub indent_of : ℕ → Outcome (List ℕ)
  indent_of depth = if pretty then make_indent depth else ok []

  -- `print` and its loop. The fuel bounds the turns and the nesting; the text that is written comes
  -- with the elements that are left.
  unfoldable mutual
    pub print : ℕ → List X → Outcome (List ℕ × List X)
    print zero xs = out_of_fuel
    print (suc f) [] = err dangling
    print (suc f) (x ∷ xs) = indent_of (depth_of x) >>= λ indent.
        indent_of (sub_u64 (depth_of x) 1) >>= λ last_indent.
        print_elements f (depth_of x) indent true (x ∷ xs) >>= λ (body, rest). ok (
          (b'[' ∷ (endl pretty ++ indent)) ++ (body ++ closing pretty (depth_of x) last_indent),
          rest,
        )

    pub print_elements : ℕ → ℕ → List ℕ → Bool → List X → Outcome (List ℕ × List X)
    print_elements zero depth indent first xs = out_of_fuel
    print_elements (suc f) depth indent first [] = ok ([], [])
    print_elements (suc f) depth indent first (x ∷ xs) =
        let turn : Outcome (List ℕ × List X) = print_members f depth xs >>= λ (members, rest).
        print_elements f depth indent false rest >>= λ (others, rest'). ok (
          opening pretty first indent
              ++ (fields_of x indent
                  ++ (members_key pretty ++ (members ++ (indent ++ (b'}' ∷ others))))),
          rest',
        ) in
        if ltb (depth_of x) depth then ok ([], x ∷ xs) else turn

    -- `if (++it != end && it->type_path.size() > depth)`
    pub print_members : ℕ → ℕ → List X → Outcome (List ℕ × List X)
    print_members zero depth xs = out_of_fuel
    print_members (suc f) depth [] = ok (codes "[]" ++ endl pretty, [])
    print_members (suc f) depth (x ∷ xs) =
        let nested = print f (x ∷ xs) in
        if ltb depth (depth_of x) then nested else ok (codes "[]" ++ endl pretty, x ∷ xs)
