-- ===== src/Base/Text.antt =====
-- Texts: comparison, joining, decimal numbers and string-keyed maps.
use Prim.Native.Nat.{ℕ, zero, suc, ◌/◌, ◌%◌}
use Prim.Native.Char.{code}
use Prim.Native.String.{String, ◌++◌}
use mathlib.Core.Path.{◌≡◌, refl}
use mathlib.Core.Bool.{Bool, true, false, ◌&&◌, ◌||◌}
use mathlib.Core.Option.{Option, none, some}
use mathlib.Core.List.{List, [], ◌∷◌}
use native.Mathlib.Omega.{arith}
use text.Mathlib.Text.{◌==◌}
use text.Mathlib.TextEquality.{eq_iff}
use zfs_evacuation_controlle.Base.Tests.{ltb, leb, ◌==◌ as ◌==ℕ◌, if◌then◌else◌}

-- Equality of texts.
abbrev pub eqs : String → String → Bool
eqs s t = s == t

pub eqs→eq : (s t : String) → eqs s t ≡ true → s ≡ t
eqs→eq s t h = (eq_iff s t).0 h

pub eq→eqs : (s t : String) → s ≡ t → eqs s t ≡ true
eq→eqs s t h = (eq_iff s t).1 h

infixr 66 ◌<>◌
abbrev pub ◌<>◌ : String → String → String
s <> t = s ++ t

-- A `BTreeMap<String, String>` as an association list without repeated keys.
abbrev pub StrMap : Type 0
StrMap = List (String × String)

unfoldable pub lookup : String → StrMap → Option String
lookup k [] = none
lookup k ((j, v) ∷ m) = let rest = lookup k m in if eqs j k then some v else rest

unfoldable pub insert : String → String → StrMap → StrMap
insert k v [] = (k, v) ∷ []
insert k v ((j, w) ∷ m) = let rest = insert k v m in if eqs j k then (k, v) ∷ m else (j, w) ∷ rest

unfoldable pub remove : String → StrMap → StrMap
remove k [] = []
remove k ((j, w) ∷ m) = let rest = remove k m in if eqs j k then rest else (j, w) ∷ rest

-- `slice.contains(&s)`
abbrev pub contains : String → List String → Bool
contains s [] = false
contains s (x ∷ xs) = eqs x s || contains s xs

-- `v.join(", ")`
unfoldable pub join : String → List String → String
join sep [] = ""
join sep (x ∷ []) = x
join sep (x ∷ y ∷ ys) = x <> sep <> join sep (y ∷ ys)

-- Decimal digits, `format!("{n}")`. The fuel `suc n` is more than the number of digits.
digit : ℕ → String
digit zero = "0"
digit (suc zero) = "1"
digit (suc (suc zero)) = "2"
digit (suc (suc (suc zero))) = "3"
digit (suc (suc (suc (suc zero)))) = "4"
digit (suc (suc (suc (suc (suc zero))))) = "5"
digit (suc (suc (suc (suc (suc (suc zero)))))) = "6"
digit (suc (suc (suc (suc (suc (suc (suc zero))))))) = "7"
digit (suc (suc (suc (suc (suc (suc (suc (suc zero)))))))) = "8"
digit _ = "9"

show_fuel : ℕ → ℕ → String → String
show_fuel zero n acc = acc
show_fuel (suc f) n acc =
    let rest = show_fuel f (n / 10) (digit (n % 10) <> acc) in
    if ltb n 10 then digit n <> acc else rest

unfoldable pub show : ℕ → String
unfolding show_fuel digit
show n = show_fuel (suc n) n ""

module _ (k : String) where
  pub lookup-insert :
      (j v : String) (m : StrMap)
      → lookup j (insert k v m) ≡ (if eqs k j then some v else lookup j m)
  unfolding lookup insert
  lookup-insert j v [] = refl
  lookup-insert j v ((i, w) ∷ m) =
      ground (arith, eq_iff k j, eq_iff i k, eq_iff i j, lookup-insert j v m)

  pub lookup-remove :
      (j : String) (m : StrMap) → lookup j (remove k m) ≡ (if eqs k j then none else lookup j m)
  unfolding lookup remove
  lookup-remove j [] = ground arith
  lookup-remove j ((i, w) ∷ m) =
      ground (arith, eq_iff k j, eq_iff i k, eq_iff i j, lookup-remove j m)

-- The code points of a text: its bytes, if it is ASCII.
abbrev pub codes : String → List ℕ
codes String.[] = []
codes (String.◌∷◌ c s) = code c ∷ codes s

-- `u8::is_ascii_digit`
abbrev pub is_ascii_digit : ℕ → Bool
is_ascii_digit c = leb b'0' c && leb c b'9'

-- `u8::is_ascii_alphanumeric`
unfoldable pub is_ascii_alphanumeric : ℕ → Bool
is_ascii_alphanumeric c =
    (leb b'0' c && leb c b'9') || ((leb b'A' c && leb c b'Z') || (leb b'a' c && leb c b'z'))

-- Lower-case hexadecimal digits, with zeros up to a width that covers the number: `{:04x}`.
hex_digit : ℕ → String
hex_digit n =
    if n ==ℕ 10
    then "a"
    else if n ==ℕ 11
    then "b"
    else if n ==ℕ 12
    then "c"
    else if n ==ℕ 13
    then "d"
    else if n ==ℕ 14
    then "e"
    else if n ==ℕ 15
    then "f"
    else digit n

unfoldable pub hex : ℕ → ℕ → String
unfolding hex_digit digit
hex zero n = ""
hex (suc w) n = hex w (n / 16) <> hex_digit (n % 16)
