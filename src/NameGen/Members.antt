-- ===== src/NameGen/Members.antt =====
-- The members of a class get different names.
use object_introspection.Prelude.{
  ℕ, zero, suc, ◌+◌, ◌≡◌, sym, ◌∙◌, ap, List, [], ◌∷◌, some, get_elem?, arith, ◌&◌, to_string, ◌≢◌,
}
use object_introspection.Types.{Member}
use object_introspection.NameGen.{name_member, name_members}
use object_introspection.NameGen.Texts.{or_anonymous}
use object_introspection.NameGen.Numbers.{
  read_number, read_number-numbered, read_number-replace_dots,
}

read_number-name_member : (i : ℕ) (m : Member) → read_number 0 (name_member i m).name ≡ i
unfolding name_member
read_number-name_member i m =
    read_number-replace_dots (or_anonymous m.name & "_" & to_string i) 0
    ∙ read_number-numbered (or_anonymous m.name) i 0

read_number-name_members :
    (k : ℕ) (ms : List Member) (i : ℕ) (m : Member)
    → get_elem? (name_members k ms) i ≡ some m
    → read_number 0 m.name ≡ k + i
unfolding name_members
read_number-name_members k [] i m h = cc
read_number-name_members k (x ∷ ms) zero m h =
    let e : name_member k x ≡ m = cc in
    ap (λ x. read_number 0 x.name) (sym e) ∙ read_number-name_member k x ∙ omega arith
read_number-name_members k (x ∷ ms) (suc i) m h =
    read_number-name_members (k + 1) ms i m h ∙ omega arith

-- Two members of a class get different names, whatever names they had.
pub name_members-ne :
    (ms : List Member) (i j : ℕ) (m m' : Member)
    → get_elem? (name_members 0 ms) i ≡ some m
    → get_elem? (name_members 0 ms) j ≡ some m'
    → i ≢ j
    → m.name ≢ m'.name
name_members-ne ms i j m m' h k ne e =
    let a = read_number-name_members 0 ms i m h in
    let b = read_number-name_members 0 ms j m' k in let c = ap (read_number 0) e in ne (omega arith)
