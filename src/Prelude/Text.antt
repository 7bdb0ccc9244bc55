-- ===== src/Prelude/Text.antt =====
-- Go strings, byte by byte: a `Char` stands for one byte. The functions of the package strings,
-- net/textproto and strconv that the source uses.
use Prim.Native.Char.{Char, code}
use Prim.Native.Nat.{ℕ, zero, suc, ◌-◌, ◌/◌, ◌%◌}
use Prim.Native.String
use Prim.Native.String.{String, [], ◌∷◌}
use mathlib.Core.Bool.{Bool, false, ◌&&◌, ◌||◌}
use mathlib.Core.Option.{Option, none, some}
use mathlib.Core.List.{List}
use thrust_oauth2id_server.Prelude.Tests.{leb, ltb, nat_eq, if◌then◌else◌}

infixr 65 ◌<>◌
abbrev pub ◌<>◌ : String → String → String
s <> t = String.◌++◌ s t

abbrev pub snoc : String → Char → String
snoc s c = s <> c ∷ []

-- unicode.IsSpace over one byte.
unfoldable pub is_space : Char → Bool
is_space c = (leb 9 (code c) && leb (code c) 13) || nat_eq (code c) 32

-- strings.TrimLeft, TrimRight and TrimSpace with that test.
unfoldable pub trim_left : String → String
trim_left [] = []
trim_left (c ∷ s) = let rest = trim_left s in if is_space c then rest else c ∷ s

unfoldable pub cons_unless_blank : Char → String → String
cons_unless_blank c [] = if is_space c then [] else c ∷ []
cons_unless_blank c s = c ∷ s

unfoldable pub trim_right : String → String
unfolding cons_unless_blank
trim_right [] = []
trim_right (c ∷ s) = cons_unless_blank c (trim_right s)

unfoldable pub trim_space : String → String
unfolding trim_left trim_right is_space
trim_space s = trim_right (trim_left s)

-- strings.Split by one byte: the parts between the separators, at least one.
unfoldable pub split_from : ℕ → String → String → List String
split_from sep cur [] = List.◌∷◌ cur List.[]
split_from sep cur (c ∷ s) =
    let closed = List.◌∷◌ cur (split_from sep "" s) in
    let longer = split_from sep (snoc cur c) s in if nat_eq (code c) sep then closed else longer

unfoldable pub split : ℕ → String → List String
unfolding split_from
split sep s = split_from sep "" s

-- strings.HasPrefix, and TrimPrefix as the text behind the prefix.
unfoldable pub after_prefix : String → String → Option String
after_prefix [] s = some s
after_prefix (c ∷ p) [] = none
after_prefix (c ∷ p) (d ∷ s) = if nat_eq (code c) (code d) then after_prefix p s else none

-- strings.Index of one byte, with what stands before and behind it.
unfoldable pub cut : ℕ → String → Option (String × String)
cut sep [] = none
cut sep (c ∷ s) =
    if nat_eq (code c) sep
    then some ("", s)
    else elim (cut sep s) [ none ↦ none | some (a, b) ↦ some (c ∷ a, b) ]

-- strings.Contains of one byte.
unfoldable pub contains_byte : ℕ → String → Bool
contains_byte b [] = false
contains_byte b (c ∷ s) = nat_eq (code c) b || contains_byte b s

unfoldable pub char_at_or : Char → ℕ → String → Char
char_at_or d n [] = d
char_at_or d zero (c ∷ s) = c
char_at_or d (suc n) (c ∷ s) = char_at_or d n s

unfoldable pub is_lower : Char → Bool
is_lower c = leb 97 (code c) && leb (code c) 122

unfoldable pub is_upper : Char → Bool
is_upper c = leb 65 (code c) && leb (code c) 90

unfoldable pub is_digit : Char → Bool
is_digit c = leb 48 (code c) && leb (code c) 57

unfoldable pub upper : Char → Char
unfolding is_lower char_at_or
upper c = if is_lower c then char_at_or c (code c - 97) "ABCDEFGHIJKLMNOPQRSTUVWXYZ" else c

unfoldable pub lower : Char → Char
unfolding is_upper char_at_or
lower c = if is_upper c then char_at_or c (code c - 65) "abcdefghijklmnopqrstuvwxyz" else c

-- strings.ToUpper and ToLower over ASCII.
unfoldable pub to_upper : String → String
unfolding upper
to_upper [] = []
to_upper (c ∷ s) = upper c ∷ to_upper s

unfoldable pub to_lower : String → String
unfolding lower
to_lower [] = []
to_lower (c ∷ s) = lower c ∷ to_lower s

-- strconv.Itoa of a number that is not negative. Each round divides by ten, so n + 1 rounds are
-- enough for n.
unfoldable pub digit : ℕ → Char
unfolding char_at_or
digit n = char_at_or "0" n "0123456789"

unfoldable pub itoa_from : ℕ → ℕ → String
unfolding digit
itoa_from zero n = ""
itoa_from (suc fuel) n =
    let rest = itoa_from fuel (n / 10) in
    if ltb n 10 then digit n ∷ [] else snoc rest (digit (n % 10))

unfoldable pub itoa : ℕ → String
unfolding itoa_from
itoa n = itoa_from (suc n) n
