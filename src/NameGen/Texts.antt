-- ===== src/NameGen/Texts.antt =====
-- How a generated name is put together from a source name and a number.
use Prim.Native.Char.{code}
use object_introspection.Prelude.{
  ℕ, Bool, String, ◌&◌, to_string, ◌==◌, ◌||◌, ◌&&◌, leb, str_eq, if◌then◌else◌,
}

abbrev pub anon_prefix : String
anon_prefix = "__oi_anon"

-- `removeTemplateParams`
unfoldable pub remove_template_params : String → String
remove_template_params String.[] = ""
remove_template_params (String.◌∷◌ c s) =
    let rest = remove_template_params s in if code c == b'<' then "" else String.◌∷◌ c rest

abbrev pub or_anonymous : String → String
or_anonymous name = if str_eq name "" then anon_prefix else name

-- `deduplicate`, given the number to append.
unfoldable pub deduplicate : ℕ → String → String
deduplicate n name = or_anonymous name & "_" & to_string n

-- `std::replace(begin, end, '.', '$')`
unfoldable pub replace_dots : String → String
replace_dots String.[] = ""
replace_dots (String.◌∷◌ c s) = String.◌∷◌ (if code c == b'.' then "$" else c) (replace_dots s)

-- `std::isalnum` in the C locale.
abbrev is_alnum : ℕ → Bool
is_alnum c = leb b'0' c && leb c b'9' || leb b'A' c && leb c b'Z' || leb b'a' c && leb c b'z'

unfoldable pub sanitize : String → String
sanitize String.[] = ""
sanitize (String.◌∷◌ c s) = String.◌∷◌ (if is_alnum (code c) then c else "_") (sanitize s)
