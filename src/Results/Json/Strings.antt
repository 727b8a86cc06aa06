-- ===== src/Results/Json/Strings.antt =====
-- A string field read back by a reader of JSON.
use mathlib.Core.List.{append_assoc}
use object_introspection.Prelude.{
  ℕ, ◌≡◌, refl, ◌∙◌, ap, List, [], ◌∷◌, ◌++◌, Option, none, some, Bool, true, false, String, codes,
  All, Bool-cases, inl, inr, if◌then◌else◌, ◌==◌, ltb,
}
use object_introspection.Results.Json.{quote, tab, space, field_name, field_end, print_string_field}

-- A character that JSON has as it is inside a string.
abbrev pub is_plain : ℕ → Bool
is_plain c =
    if c == quote then false else if c == 92 then false else if ltb c 32 then false else true

abbrev pub IsPlain : List ℕ → Type 0
IsPlain cs = All (λ c. is_plain c ≡ true) cs

abbrev before_rest : List ℕ → Option (List ℕ × List ℕ) → Option (List ℕ × List ℕ)
before_rest cs none = none
before_rest cs (some (text, rest)) = some (cs ++ text, rest)

-- The rest of a string behind its first quote, with the escapes as they are written, and what follows.
unfoldable pub read_string : List ℕ → Option (List ℕ × List ℕ)
read_string [] = none
read_string (c ∷ []) = if c == quote then some ([], []) else none
read_string (c ∷ d ∷ cs) =
    let escaped = read_string cs in
    let plain = read_string (d ∷ cs) in
    if c == quote
    then some ([], d ∷ cs)
    else if c == 92
    then before_rest (c ∷ d ∷ []) escaped
    else if ltb c 32
    then none
    else before_rest (c ∷ []) plain

unfoldable pub skip_blanks : List ℕ → List ℕ
skip_blanks [] = []
skip_blanks (c ∷ cs) =
    let rest = skip_blanks cs in if c == b' ' then rest else if c == 10 then rest else c ∷ cs

-- A given character behind blanks.
unfoldable pub expect : ℕ → List ℕ → Option (List ℕ)
unfolding skip_blanks
expect c cs = elim (skip_blanks cs) [ [] ↦ none | d ∷ rest ↦ if d == c then some rest else none ]

infixl 5 ◌>>?◌
abbrev ◌>>?◌ : {A B : Type 0} → Option A → (A → Option B) → Option B
none >>? f = none
some a >>? f = f a

-- `"name": "value"`, and what follows.
unfoldable pub read_string_field : List ℕ → Option (List ℕ × List ℕ × List ℕ)
unfolding expect read_string
read_string_field cs = expect quote cs >>? λ a. read_string a >>? λ (name, b).
    expect b':' b >>? λ c.
    expect quote c >>? λ d. read_string d >>? λ (value, rest). some (name, value, rest)

-- A plain character is none of the characters that end a string or open an escape.
plain_tests :
    (c : ℕ) → is_plain c ≡ true → ((c == quote) ≡ false) × ((c == 92) ≡ false) × (ltb c 32 ≡ false)
plain_tests c h = elim (Bool-cases (c == quote)) [
  | inl quoted ↦ let k = rw quoted at h in cc
  | inr other ↦ elim (Bool-cases (c == 92)) [
    | inl slash ↦ let k = rw (other, slash) at h in cc
    | inr plain ↦ elim (Bool-cases (ltb c 32)) [
      | inl control ↦ let k = rw (other, plain, control) at h in cc
      | inr printed ↦ (other, plain, printed)
    ]
  ]
]

-- A string that begins with its closing quote is empty.
read_string-quote : (rest : List ℕ) → read_string (quote ∷ rest) ≡ some ([], rest)
unfolding read_string
read_string-quote [] = refl
read_string-quote (r ∷ rest) = refl

-- A plain text is read up to the quote behind it.
read_string-plain :
    (cs rest : List ℕ) → IsPlain cs → read_string (cs ++ quote ∷ rest) ≡ some (cs, rest)
unfolding read_string
read_string-plain [] rest h = read_string-quote rest
read_string-plain (c ∷ []) rest h =
    let (other, plain, printed) = plain_tests c h.0 in
    rw (other, plain, printed, read_string-quote rest) refl
read_string-plain (c ∷ d ∷ cs) rest h =
    let (other, plain, printed) = plain_tests c h.0 in
    rw (other, plain, printed, read_string-plain (d ∷ cs) rest h.1) refl

field_name-append :
    (pretty : Bool) (name : String) (rest : List ℕ)
    → field_name pretty name ++ rest
      ≡ tab pretty ++ (quote ∷ (codes name ++ (quote ∷ b':' ∷ (space pretty ++ rest))))
unfolding field_name
field_name-append pretty name rest =
    append_assoc (tab pretty) (quote ∷ (codes name ++ (quote ∷ b':' ∷ space pretty))) rest
    ∙ ap (λ l. tab pretty ++ (quote ∷ l))
        (append_assoc (codes name) (quote ∷ b':' ∷ space pretty) rest)

-- A field with a plain name is read as that name and whatever a string that stands behind it is read as.
read_string_field-value :
    (pretty : Bool) (name : String) (text value rest : List ℕ)
    → IsPlain (codes name)
    → read_string text ≡ some (value, rest)
    → read_string_field (field_name pretty name ++ quote ∷ text) ≡ some (codes name, value, rest)
unfolding read_string_field expect skip_blanks
read_string_field-value true name text value rest h e =
    rw
      (
        field_name-append true name (quote ∷ text),
        read_string-plain (codes name) (b':' ∷ b' ' ∷ quote ∷ text) h,
        e,
      )
      refl
read_string_field-value false name text value rest h e =
    rw
      (
        field_name-append false name (quote ∷ text),
        read_string-plain (codes name) (b':' ∷ quote ∷ text) h,
        e,
      )
      refl

-- A string field is read back as it was written, and the reader stops at the end of the field, where
-- the name and the value have no quote, no backslash and no control character.
pub read_string_field-print_string_field :
    (pretty : Bool) (name value : String) (indent : List ℕ)
    → IsPlain (codes name)
    → IsPlain (codes value)
    → read_string_field (print_string_field pretty name value indent)
      ≡ some (codes name, codes value, field_end pretty indent)
unfolding print_string_field
read_string_field-print_string_field pretty name value indent h k =
    let end = field_end pretty indent in
    read_string_field-value pretty name (codes value ++ quote ∷ end) (codes value) end h
      (read_string-plain (codes value) end k)

-- A quote in a value is written as it is. Where the name of the field, and the text of the value
-- before its first quote, are plain (no quote, no backslash and no control character), the reader
-- takes that quote for the end of the value, and what stands behind it in the value for what follows
-- the field.
pub print_string_field_ends_early :
    (pretty : Bool) (name value : String) (before after indent : List ℕ)
    → IsPlain (codes name)
    → IsPlain before
    → codes value ≡ before ++ quote ∷ after
    → read_string_field (print_string_field pretty name value indent)
      ≡ some (codes name, before, after ++ quote ∷ field_end pretty indent)
unfolding print_string_field
print_string_field_ends_early pretty name value before after indent h k e =
    let end : List ℕ = quote ∷ field_end pretty indent in
    read_string_field-value pretty name (codes value ++ end) before (after ++ end) h (
      ap (λ l. read_string (l ++ end)) e
      ∙ ap read_string (append_assoc before (quote ∷ after) end)
      ∙ read_string-plain before (after ++ end) k)
