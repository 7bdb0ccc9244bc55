-- ===== src/ProxyCache/Directives.antt =====
-- internal/proxy/cache/cacheable_response.go: the regular expressions over Cache-Control.
use Prim.Native.Char.{Char, code}
use Prim.Native.String.{[], ◌∷◌}
use thrust_oauth2id_server.Prelude.{
  ℕ, ◌+◌, ◌-◌, ◌*◌, String, Bool, true, false, ◌&&◌, ◌||◌, not, Option, none, some, if◌then◌else◌,
  ltb, nat_eq,
}
use thrust_oauth2id_server.Prelude.Text.{is_lower, is_upper, is_digit, after_prefix}

-- \w of the package regexp.
unfoldable pub is_word : Char → Bool
unfolding is_lower is_upper is_digit
is_word c = is_lower c || is_upper c || is_digit c || nat_eq (code c) 95

-- \b before a text, whose last byte behind it is a word's.
unfoldable pub ends_word : String → Bool
unfolding is_word
ends_word [] = true
ends_word (c ∷ s) = not (is_word c)

abbrev word_then : Option String → Bool
word_then none = false
word_then (some rest) = ends_word rest

-- publicExp and noCacheExp: \bword\b somewhere in the text; `inside` says that the byte before is
-- a word's.
unfoldable pub find_word : String → Bool → String → Bool
unfolding ends_word after_prefix
find_word word inside [] = false
find_word word inside (c ∷ s) =
    (not inside && word_then (after_prefix word (c ∷ s))) || find_word word (is_word c) s

-- (\d+)\b, with the digits read so far.
unfoldable pub digits_at : String → String
unfolding is_digit
digits_at [] = []
digits_at (c ∷ s) = let more = digits_at s in if is_digit c then c ∷ more else []

unfoldable pub behind_digits : String → String
unfolding is_digit
behind_digits [] = []
behind_digits (c ∷ s) = let more = behind_digits s in if is_digit c then more else c ∷ s

abbrev nonempty_digits : String → String → Option String
nonempty_digits [] rest = none
nonempty_digits (c ∷ s) rest = if ends_word rest then some (c ∷ s) else none

abbrev age_then : Option String → Option String
age_then none = none
age_then (some rest) = nonempty_digits (digits_at rest) (behind_digits rest)

abbrev or_else : Option String → Option String → Option String
or_else none b = b
or_else (some a) b = some a

-- sMaxAgeExp and maxAgeExp: the digits of the leftmost \bname=(\d+)\b.
unfoldable pub find_age : String → Bool → String → Option String
unfolding digits_at behind_digits ends_word after_prefix
find_age name inside [] = none
find_age name inside (c ∷ s) =
    or_else (if inside then none else age_then (after_prefix name (c ∷ s)))
      (find_age name (is_word c) s)

-- strconv.Atoi of a text of digits on a 64-bit machine.
unfoldable pub number_from : ℕ → String → ℕ
number_from n [] = n
number_from n (c ∷ s) = number_from (n * 10 + (code c - 48)) s

unfoldable pub atoi_digits : String → Option ℕ
unfolding number_from
atoi_digits s = let n = number_from 0 s in if ltb n 0x8000000000000000 then some n else none
