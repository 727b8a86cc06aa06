-- ===== src/Prelude/Texts.antt =====
-- Text of the generated names: concatenation, and std::to_string of an unsigned number.
use Prim.Native.Nat.{ℕ, zero, suc, ◌/◌, ◌%◌}
use Prim.Native.String.{String, ◌++◌}
use Prim.Native.Char.{code}
use mathlib.Core.List.{List, [], ◌∷◌}
use object_introspection.Prelude.Tests.{ltb, if◌then◌else◌}
use object_introspection.Prelude.Lists.{get_or}

infixr 65 ◌&◌
abbrev pub ◌&◌ : String → String → String
s & t = s ++ t

abbrev pub digit : ℕ → String
digit d = get_or ("0" ∷ "1" ∷ "2" ∷ "3" ∷ "4" ∷ "5" ∷ "6" ∷ "7" ∷ "8" ∷ "9" ∷ []) d ""

-- The fuel bounds the number of digits, and `n + 1` is enough.
unfoldable pub decimal : ℕ → ℕ → String
decimal zero n = ""
decimal (suc f) n =
    let high = decimal f (n / 10) in if ltb n 10 then digit n else high & digit (n % 10)

unfoldable pub to_string : ℕ → String
unfolding decimal
to_string n = decimal (suc n) n

-- The code points of a text: its bytes, if it is ASCII.
abbrev pub codes : String → List ℕ
codes String.[] = []
codes (String.◌∷◌ c s) = code c ∷ codes s
