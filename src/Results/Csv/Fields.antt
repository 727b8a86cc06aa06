-- ===== src/Results/Csv/Fields.antt =====
-- A field of the table read back by a reader for RFC 4180, the format that the header of the exporter
-- names.
use mathlib.Core.List.{append_assoc}
use object_introspection.Prelude.{
  ℕ, ◌≡◌, refl, ap, ◌∙◌, List, [], ◌∷◌, ◌++◌, Option, some, none, Bool, true, false, All,
  if◌then◌else◌, ◌==◌,
}
use object_introspection.Results.Csv.{quote, escape_quotes, escape_field}

-- What was read in front of what is read later.
abbrev pub read_before : List ℕ → Option (List ℕ × List ℕ) → Option (List ℕ × List ℕ)
read_before cs none = none
read_before cs (some (f, rest)) = some (cs ++ f, rest)

-- A reader for RFC 4180 (section 2, rules 5 to 7), behind the first quote of a field: two quotes are
-- one, and a single one ends the field. The flag is set behind a quote.
unfoldable pub read_rfc_body : Bool → List ℕ → Option (List ℕ × List ℕ)
read_rfc_body false [] = none
read_rfc_body true [] = some ([], [])
read_rfc_body false (c ∷ cs) =
    let ended = read_rfc_body true cs in
    let clear = read_rfc_body false cs in if c == quote then ended else read_before (c ∷ []) clear
read_rfc_body true (c ∷ cs) =
    let clear = read_rfc_body false cs in
    if c == quote then read_before (quote ∷ []) clear else some ([], c ∷ cs)

-- A field between quotes, and what follows it.
unfoldable pub read_rfc_field : List ℕ → Option (List ℕ × List ℕ)
unfolding read_rfc_body
read_rfc_field [] = none
read_rfc_field (c ∷ cs) = if c == quote then read_rfc_body false cs else none

abbrev pub HasNoQuote : List ℕ → Type 0
HasNoQuote cs = All (λ c. (c == quote) ≡ false) cs

-- What follows a field does not go on with a quote.
abbrev pub IsBehindField : List ℕ → Type 0
IsBehindField [] = Unit
IsBehindField (c ∷ cs) = (c == quote) ≡ false

read_rfc_body-end : (rest : List ℕ) → IsBehindField rest → read_rfc_body true rest ≡ some ([], rest)
unfolding read_rfc_body
read_rfc_body-end [] h = refl
read_rfc_body-end (c ∷ cs) h = rw h refl

read_rfc_body-plain :
    (field rest : List ℕ)
    → HasNoQuote field
    → IsBehindField rest
    → read_rfc_body false ((escape_quotes field ++ quote ∷ []) ++ rest) ≡ some (field, rest)
unfolding read_rfc_body escape_quotes
read_rfc_body-plain [] rest h k = read_rfc_body-end rest k
read_rfc_body-plain (c ∷ cs) rest h k = rw (h.0, h.0, read_rfc_body-plain cs rest h.1 k) refl

-- A reader for RFC 4180, in which a field stands between quotes, two quotes inside it are one and a
-- single one ends it, reads back a field that has no quote, commas, line breaks and backslashes
-- included, and stops right behind it, where what follows does not begin with a quote.
pub read_rfc_field-escape_field :
    (field rest : List ℕ)
    → HasNoQuote field
    → IsBehindField rest
    → read_rfc_field (escape_field field ++ rest) ≡ some (field, rest)
unfolding read_rfc_field escape_field
read_rfc_field-escape_field field rest h k = read_rfc_body-plain field rest h k

ends_early :
    (before after rest : List ℕ) (c : ℕ)
    → HasNoQuote before
    → (c == quote) ≡ false
    → read_rfc_body false (escape_quotes (before ++ quote ∷ c ∷ after) ++ quote ∷ rest)
      ≡ some (before ++ 92 ∷ [], c ∷ (escape_quotes after ++ quote ∷ rest))
unfolding read_rfc_body escape_quotes
ends_early [] after rest c h other = rw (other, other) refl
ends_early (b ∷ before) after rest c h other =
    rw (h.0, h.0, ends_early before after rest c h.1 other) refl

-- A field with a quote, of which the first is followed in the field by a byte that is no quote, is not
-- read back by a reader for RFC 4180, in which two quotes inside a field are one and a single one
-- ends it: it reads the text before that first quote with a backslash behind it, and leaves the rest
-- of the field outside.
pub escape_quotes_not_rfc :
    (before after rest : List ℕ) (c : ℕ)
    → HasNoQuote before
    → (c == quote) ≡ false
    → read_rfc_field (escape_field (before ++ quote ∷ c ∷ after) ++ rest)
      ≡ some (before ++ 92 ∷ [], c ∷ (escape_quotes after ++ quote ∷ rest))
unfolding read_rfc_field escape_field
escape_quotes_not_rfc before after rest c h other =
    ap (read_rfc_body false)
      (append_assoc (escape_quotes (before ++ quote ∷ c ∷ after)) (quote ∷ []) rest)
    ∙ ends_early before after rest c h other
