-- ===== src/NameGen/Numbers.antt =====
-- The number at the end of a generated name can be read back, so names with different numbers differ.
use Prim.Native.Char.{code}
use text.Mathlib.TextLemmas.{nil-append, cons-append}
use object_introspection.Prelude.{
  eq_of_==, digit, decimal, ◌≤◌, ◌≢◌, ℕ, zero, suc, ◌+◌, ◌-◌, ◌*◌, ◌/◌, ◌%◌, ◌<◌, ◌≡◌, refl, sym,
  ◌∙◌, ap, true, String, ◌&◌, to_string, ◌==◌, ◌&&◌, leb, ltb, if◌then◌else◌, arith, Bool-cases,
  inl, inr,
}
use object_introspection.NameGen.Texts.{or_anonymous, deduplicate, replace_dots}

-- A digit is added to the number before it, and a `_` begins a new number.
abbrev pub add_code : ℕ → ℕ → ℕ
add_code c acc =
    if c == b'_' then 0 else if leb b'0' c && leb c b'9' then acc * 10 + (c - 48) else acc

abbrev pub read_number : ℕ → String → ℕ
read_number acc String.[] = acc
read_number acc (String.◌∷◌ c s) = read_number (add_code (code c) acc) s

read_number-append :
    (s t : String) (acc : ℕ) → read_number acc (s & t) ≡ read_number (read_number acc s) t
read_number-append String.[] t acc = ap (read_number acc) (nil-append t)
read_number-append (String.◌∷◌ c s) t acc =
    ap (read_number acc) (cons-append c s t) ∙ read_number-append s t (add_code (code c) acc)

-- Neither of the two is a digit or `_`.
add_code-dot : (c : ℕ) (acc : ℕ) → (c == b'.') ≡ true → add_code b'$' acc ≡ add_code c acc
add_code-dot c acc h = rw (eq_of_== c b'.' h) refl

pub read_number-replace_dots :
    (s : String) (acc : ℕ) → read_number acc (replace_dots s) ≡ read_number acc s
unfolding replace_dots
read_number-replace_dots String.[] acc = refl
read_number-replace_dots (String.◌∷◌ c s) acc = elim (Bool-cases (code c == b'.')) [
  | inl dot ↦ rw dot (
      read_number-replace_dots s (add_code b'$' acc)
      ∙ ap (λ a. read_number a s) (add_code-dot (code c) acc dot))
  | inr other ↦ rw other (read_number-replace_dots s (add_code (code c) acc))
]

read_number-digit : (d acc : ℕ) → d < 10 → read_number acc (digit d) ≡ acc * 10 + d
read_number-digit zero acc h = omega arith
read_number-digit (suc zero) acc h = refl
read_number-digit (suc (suc zero)) acc h = refl
read_number-digit (suc (suc (suc zero))) acc h = refl
read_number-digit (suc (suc (suc (suc zero)))) acc h = refl
read_number-digit (suc (suc (suc (suc (suc zero))))) acc h = refl
read_number-digit (suc (suc (suc (suc (suc (suc zero)))))) acc h = refl
read_number-digit (suc (suc (suc (suc (suc (suc (suc zero))))))) acc h = refl
read_number-digit (suc (suc (suc (suc (suc (suc (suc (suc zero)))))))) acc h = refl
read_number-digit (suc (suc (suc (suc (suc (suc (suc (suc (suc zero))))))))) acc h = refl
read_number-digit (suc (suc (suc (suc (suc (suc (suc (suc (suc (suc d)))))))))) acc h =
    absurd (ground arith)

read_number-decimal : (f n : ℕ) → n < f → read_number 0 (decimal f n) ≡ n
unfolding decimal
read_number-decimal zero n h = elim h [ ]
read_number-decimal (suc f) n h = elim (Bool-cases (ltb n 10)) [
  | inl small ↦ rw small (read_number-digit n 0 (ground arith) ∙ omega arith)
  | inr large ↦
      let ten : 10 ≤ n = ground arith in
      let d : n % 10 < 10 = omega arith in
      let fits : n / 10 < f = omega arith in
      rw large (
        read_number-append (decimal f (n / 10)) (digit (n % 10)) 0
        ∙ ap (λ a. read_number a (digit (n % 10))) (read_number-decimal f (n / 10) fits)
        ∙ read_number-digit (n % 10) (n / 10) d
        ∙ omega arith)
]

read_number-to_string : (n : ℕ) → read_number 0 (to_string n) ≡ n
unfolding to_string
read_number-to_string n = read_number-decimal (suc n) n (omega arith)

-- The number behind the last `_`.
pub read_number-numbered : (s : String) (n acc : ℕ) → read_number acc (s & "_" & to_string n) ≡ n
read_number-numbered s n acc =
    read_number-append s ("_" & to_string n) acc
    ∙ read_number-append "_" (to_string n) (read_number acc s)
    ∙ read_number-to_string n

pub read_number-deduplicate : (n : ℕ) (name : String) → read_number 0 (deduplicate n name) ≡ n
unfolding deduplicate
read_number-deduplicate n name = read_number-numbered (or_anonymous name) n 0

-- Names made with different numbers are different, whatever names they are made from.
pub deduplicate-ne : (i j : ℕ) (a b : String) → i ≢ j → deduplicate i a ≢ deduplicate j b
deduplicate-ne i j a b ne h =
    ne (sym (read_number-deduplicate i a) ∙ ap (read_number 0) h ∙ read_number-deduplicate j b)
