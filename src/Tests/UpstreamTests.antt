-- ===== src/Tests/UpstreamTests.antt =====
-- internal/upstream/server.go at concrete commands and environments.
use thrust_oauth2id_server.Prelude.{
  String, ◌≡◌, refl, ◌&&◌, true, some, List, [], ◌∷◌, ltb, str_eq, if◌then◌else◌, String_Eq,
}
use thrust_oauth2id_server.Prelude.Assoc.{lookup}
use thrust_oauth2id_server.Prelude.Text.{itoa}
use thrust_oauth2id_server.Upstream.Command.{
  is_space, split_command_line, parse_signal, sigint, ok, err, unterminated_quote,
}
use thrust_oauth2id_server.Upstream.Command.Words.{command_line, split_command_line-command_line}
use thrust_oauth2id_server.Upstream.Environment.{Config, merged, merge_environ}
use thrust_oauth2id_server.Upstream.Environment.Merged.{or_value, lookup-merged}

abbrev words : List String
words = "bin/rails" ∷ "server" ∷ "a b" ∷ []

split_command_line-command_line_example : split_command_line (command_line words) ≡ ok words
split_command_line-command_line_example =
    split_command_line-command_line words (refl, (refl, (refl, tt)))

-- The quoted empty argument is dropped.
quoted_empty : split_command_line "cmd '' -x" ≡ ok ("cmd" ∷ "-x" ∷ [])
unfolding split_command_line is_space
quoted_empty = refl

open_quote : split_command_line "cmd 'x" ≡ err unterminated_quote
unfolding split_command_line is_space
open_quote = refl

signal : parse_signal "int" ≡ sigint
unfolding parse_signal
signal = refl

abbrev config : Config
config = record {
  args = [];
  command = "bin/rails";
  enabled = true;
  env = ("RAILS_ENV", "production") ∷ [];
  stop_signal = "";
  target_bind_socket = "";
  target_port = 3000;
  working_directory = "";
}

lookup-merged_example :
    lookup "PORT" (merged ("PORT=1" ∷ "HOME=/" ∷ []) config)
    ≡ or_value (lookup "PORT" config.env) (
        if str_eq "PORT" "PORT" && (str_eq "" "" && ltb 0 3000)
        then some (itoa 3000)
        else lookup "PORT" (merge_environ ("PORT=1" ∷ "HOME=/" ∷ []) []))
unfolding lookup
lookup-merged_example = lookup-merged ("PORT=1" ∷ "HOME=/" ∷ []) config "PORT" (refl, tt)
