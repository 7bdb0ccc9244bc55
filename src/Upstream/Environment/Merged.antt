-- ===== src/Upstream/Environment/Merged.antt =====
-- internal/upstream/server.go: which value a variable has in buildEnv's environment.
use thrust_oauth2id_server.Prelude.{
  String, ◌≡◌, refl, ◌&&◌, Option, none, some, List, [], ◌∷◌, arith, ltb, str_eq, eq_iff, String_Eq,
  if◌then◌else◌,
}
use thrust_oauth2id_server.Prelude.Assoc.{Assoc, lookup, insert, lookup-insert}
use thrust_oauth2id_server.Prelude.Text.{itoa}
use thrust_oauth2id_server.Upstream.Environment.{
  Config, merge_environ, merge_port, merge_env, merged,
}

-- A map has one entry for a key.
abbrev pub IsMap : Assoc String String → Type 0
IsMap [] = Unit
IsMap ((k, v) ∷ m) = (lookup k m ≡ none) × IsMap m

abbrev pub or_value : Option String → Option String → Option String
or_value none b = b
or_value (some v) b = some v

lookup-merge_env :
    (env m : Assoc String String) (k : String)
    → IsMap env
    → lookup k (merge_env env m) ≡ or_value (lookup k env) (lookup k m)
unfolding merge_env lookup
lookup-merge_env [] m k h = refl
lookup-merge_env ((j, v) ∷ env) m k (new, h) =
    ground (arith, lookup-merge_env env (insert j v m) k h, lookup-insert j k v m, eq_iff j k)

-- A variable has the configured value; else PORT has the target port where one is set and no
-- socket is bound; else it has the value of the server's own environment.
pub lookup-merged :
    (environ : List String) (cfg : Config) (k : String)
    → IsMap cfg.env
    → lookup k (merged environ cfg)
      ≡ or_value (lookup k cfg.env) (
          if str_eq "PORT" k && (str_eq cfg.target_bind_socket "" && ltb 0 cfg.target_port)
          then some (itoa cfg.target_port)
          else lookup k (merge_environ environ []))
unfolding merged merge_port
lookup-merged environ cfg k h =
    let m = merge_environ environ [] in
    ground (
      arith,
      lookup-merge_env cfg.env (merge_port cfg m) k h,
      lookup-insert "PORT" k (itoa cfg.target_port) m,
    )
