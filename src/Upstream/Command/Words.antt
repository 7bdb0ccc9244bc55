-- ===== src/Upstream/Command/Words.antt =====
-- internal/upstream/server.go: splitting a command line that was written word by word.
use Prim.Native.String.{[], ◌∷◌}
use Prim.Native.Char.{Char}
use text.Mathlib.TextLemmas.{append-nil, append_assoc, nil-append, cons-append}
use mathlib.Core.List
use mathlib.Core.List.{List}
use mathlib.Core.Path.{subst}
use thrust_oauth2id_server.Prelude.{
  String, ◌≡◌, ◌∙◌, sym, ap, false, ◌++◌, arith, str_eq, eq_iff, All, if◌then◌else◌, Bool-cases,
  inl, inr,
}
use thrust_oauth2id_server.Prelude.Text.{◌<>◌, snoc}
use thrust_oauth2id_server.Upstream.Command.{
  Scan, is_space, start, step, scan, finish, end_word, split_command_line, ok, normalize_command,
}

-- A word with a backslash before each rune, and words each behind a space.
abbrev pub backslash : Char
backslash = "\\"

abbrev pub escaped : String → String
escaped [] = []
escaped (c ∷ s) = backslash ∷ c ∷ escaped s

abbrev pub space : Char
space = " "

abbrev pub command_line : List String → String
command_line List.[] = ""
command_line (List.◌∷◌ w ws) = space ∷ (escaped w <> command_line ws)

abbrev pub IsNonempty : String → Type 0
IsNonempty s = str_eq s "" ≡ false

scan-<> : (a b : String) (s : Scan) → scan (a <> b) s ≡ scan b (scan a s)
unfolding scan
scan-<> [] b s = rw nil-append
scan-<> (c ∷ a) b s = rw cons-append (scan-<> a b (step c s))

-- The state outside quotes.
abbrev plain : List String → String → Scan
plain result current = record {
  result = result;
  current = current;
  in_single = false;
  in_double = false;
  escape = false;
}

scan-escaped :
    (w : String) (result : List String) (current : String)
    → scan (escaped w) (plain result current) ≡ plain result (current <> w)
unfolding scan
scan-escaped [] result current = rw append-nil
scan-escaped (c ∷ w) result current =
    scan-escaped w result (snoc current c)
    ∙ ap (plain result) (
        append_assoc current (c ∷ []) w
        ∙ ap (λ (t : String). current <> t) (rw (cons-append, nil-append)))

flush : List String → String → List String
flush result current = if str_eq current "" then result else result ++ List.◌∷◌ current List.[]

flush_nonempty :
    (result : List String) (w : String)
    → IsNonempty w
    → flush result w ≡ result ++ List.◌∷◌ w List.[]
unfolding flush
flush_nonempty result w h = rw h

step-space :
    (result : List String) (current : String)
    → step space (plain result current) ≡ plain (flush result current) ""
unfolding step flush is_space
step-space result current = ground (arith, eq_iff current "")

finish-plain :
    (result : List String) (current : String)
    → finish (plain result current) ≡ ok (flush result current)
unfolding finish flush
finish-plain result current = ground arith

scan_words :
    (ws result : List String) (current : String)
    → All IsNonempty ws
    → finish (scan (command_line ws) (plain result current)) ≡ ok (flush result current ++ ws)
unfolding scan
scan_words List.[] result current h = finish-plain result current ∙ ap ok (sym (List.append-nil _))
scan_words (List.◌∷◌ w ws) result current (hw, hs) =
    ap (λ (s : Scan). finish (scan (escaped w <> command_line ws) s)) (step-space result current)
    ∙ (ap finish (scan-<> (escaped w) (command_line ws) (plain (flush result current) ""))
        ∙ (ap (λ (s : Scan). finish (scan (command_line ws) s))
              (scan-escaped w (flush result current) "")
            ∙ rw nil-append (
                scan_words ws (flush result current) w hs
                ∙ ap ok (
                    ap (λ (l : List String). l ++ ws) (flush_nonempty (flush result current) w hw)
                    ∙ List.append_assoc (flush result current) (List.◌∷◌ w List.[]) ws))))

-- Nonempty words, each written behind a space with a backslash before every rune, are given back by
-- splitting, whatever runes they hold: spaces, quotes and backslashes.
pub split_command_line-command_line :
    (ws : List String) → All IsNonempty ws → split_command_line (command_line ws) ≡ ok ws
unfolding split_command_line flush
split_command_line-command_line ws h = scan_words ws List.[] "" h

-- A command line of nonempty words, each written behind a space with a backslash before every
-- character, gives the first word as the program, and the others and the extra arguments behind
-- them as its arguments.
pub normalize_command-command_line :
    (w : String) (ws extra : List String)
    → All IsNonempty (List.◌∷◌ w ws)
    → normalize_command (command_line (List.◌∷◌ w ws)) extra ≡ ok (w, ws ++ extra)
unfolding normalize_command
normalize_command-command_line w ws extra h = rw (split_command_line-command_line (List.◌∷◌ w ws) h)

All-snoc :
    (xs : List String) (x : String)
    → All IsNonempty xs
    → IsNonempty x
    → All IsNonempty (xs ++ List.◌∷◌ x List.[])
All-snoc List.[] x h k = (k, tt)
All-snoc (List.◌∷◌ y xs) x (p, h) k = (p, All-snoc xs x h k)

end_word-All : (s : Scan) → All IsNonempty s.result → All IsNonempty (end_word s).result
unfolding end_word
end_word-All s h = elim (Bool-cases (str_eq s.current "")) [
  | inl blank ↦ rw blank h
  | inr word ↦ rw word (All-snoc s.result s.current h word)
]

-- One round keeps every word nonempty.
step-All : (c : Char) (s : Scan) → All IsNonempty s.result → All IsNonempty (step c s).result
unfolding step
step-All c s h = ground (arith, All-snoc s.result s.current h)

scan-All : (t : String) (s : Scan) → All IsNonempty s.result → All IsNonempty (scan t s).result
unfolding scan
scan-All [] s h = h
scan-All (c ∷ t) s h = scan-All t (step c s) (step-All c s h)

finish-All :
    (s : Scan) (ws : List String) → All IsNonempty s.result → finish s ≡ ok ws → All IsNonempty ws
unfolding finish
finish-All s ws h e =
    let same : (end_word s).result ≡ ws = ground arith in
    subst (λ (l : List String). All IsNonempty l) same (end_word-All s h)

-- No word that splitting gives is empty, whatever the command line holds.
pub split_command_line-All :
    (command : String) (ws : List String) → split_command_line command ≡ ok ws → All IsNonempty ws
unfolding split_command_line
split_command_line-All command ws e =
    finish-All (scan command start) ws (scan-All command start tt) e
