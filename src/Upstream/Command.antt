-- ===== src/Upstream/Command.antt =====
-- internal/upstream/server.go: the command line, its arguments and the stop signal. A text is here
-- the sequence of its runes, which is what ranging over a command gives and WriteRune puts together.
pub mod Words
use Prim.Native.Char.{Char, code}
use thrust_oauth2id_server.Prelude.{
  ℕ, String, Bool, true, false, ◌&&◌, ◌||◌, not, List, [], ◌∷◌, ◌++◌, nat_eq, leb, str_eq,
  if◌then◌else◌,
}
use thrust_oauth2id_server.Prelude.Text.{snoc, to_upper}

pub data CommandError : Type 0 where
  empty_command unterminated_escape unterminated_quote : CommandError

pub data Result {ℓ} (A : Type ℓ) : Type ℓ where
  ok : A → Result A
  err : CommandError → Result A

-- The variables of the loop of splitCommandLine.
pub record Scan : Type 0 where
  pub result : List String
  pub current : String
  pub in_single : Bool
  pub in_double : Bool
  pub escape : Bool

abbrev pub start : Scan
start = record { result = []; current = ""; in_single = false; in_double = false; escape = false }

-- unicode.IsSpace.
unfoldable pub is_space : Char → Bool
is_space c =
    let n = code c in
    (leb 9 n && leb n 13)
    || nat_eq n 32
    || nat_eq n 0x85
    || nat_eq n 0xA0
    || nat_eq n 0x1680
    || (leb 0x2000 n && leb n 0x200A)
    || nat_eq n 0x2028
    || nat_eq n 0x2029
    || nat_eq n 0x202F
    || nat_eq n 0x205F
    || nat_eq n 0x3000

unfoldable pub put : Char → Scan → Scan
put c s = record s { current = snoc s.current c }

unfoldable pub end_word : Scan → Scan
end_word s =
    if str_eq s.current ""
    then s
    else record s { result = s.result ++ s.current ∷ []; current = "" }

-- One round, the cases of the switch from the top.
unfoldable pub step : Char → Scan → Scan
unfolding put end_word
step c s =
    if s.escape
    then record (put c s) { escape = false }
    else if nat_eq (code c) 92
    then (if s.in_single then put c s else record s { escape = true })
    else if nat_eq (code c) 39 && not s.in_double
    then record s { in_single = not s.in_single }
    else if nat_eq (code c) 34 && not s.in_single
    then record s { in_double = not s.in_double }
    else if is_space c && not s.in_single && not s.in_double
    then end_word s
    else put c s

unfoldable pub scan : String → Scan → Scan
unfolding step
scan String.[] s = s
scan (String.◌∷◌ c cs) s = scan cs (step c s)

unfoldable pub finish : Scan → Result (List String)
unfolding end_word
finish s =
    if s.escape
    then err unterminated_escape
    else if s.in_single || s.in_double
    then err unterminated_quote
    else ok (end_word s).result

unfoldable pub split_command_line : String → Result (List String)
unfolding scan finish
split_command_line command = finish (scan command start)

unfoldable pub normalize_parts : Result (List String) → List String → Result (String × List String)
normalize_parts (err e) extra = err e
normalize_parts (ok []) extra = err empty_command
normalize_parts (ok (base ∷ args)) extra = ok (base, args ++ extra)

unfoldable pub normalize_command : String → List String → Result (String × List String)
unfolding normalize_parts split_command_line
normalize_command command extra = normalize_parts (split_command_line command) extra

pub data Signal : Type 0 where
  sigterm sigint sigquit sigkill : Signal
  unsupported : String → Signal

-- `unsupported` is the error.
unfoldable pub parse_signal : String → Signal
unfolding to_upper
parse_signal name =
    let upper = to_upper name in
    if str_eq name ""
    then sigterm
    else if str_eq upper "SIGTERM" || str_eq upper "TERM"
    then sigterm
    else if str_eq upper "SIGINT" || str_eq upper "INT"
    then sigint
    else if str_eq upper "SIGQUIT" || str_eq upper "QUIT"
    then sigquit
    else if str_eq upper "SIGKILL" || str_eq upper "KILL"
    then sigkill
    else unsupported name
