-- ===== src/Upstream/Environment.antt =====
-- internal/upstream/server.go: buildEnv, the environment of the upstream process. The order of the
-- variables, which is that of a Go map, is the list's.
pub mod Merged
use thrust_oauth2id_server.Prelude.{
  ℕ, String, Bool, ◌&&◌, Option, none, some, List, [], ◌∷◌, ltb, str_eq, String_Eq, if◌then◌else◌,
}
use thrust_oauth2id_server.Prelude.Assoc.{Assoc, insert}
use thrust_oauth2id_server.Prelude.Text.{◌<>◌, cut, itoa}

-- config.Upstream.
pub record Config : Type 0 where
  pub args : List String
  pub command : String
  pub enabled : Bool
  pub env : Assoc String String
  pub stop_signal : String
  pub target_bind_socket : String
  pub target_port : ℕ
  pub working_directory : String

abbrev pub insert_pair : Option (String × String) → Assoc String String → Assoc String String
insert_pair none m = m
insert_pair (some (k, v)) m = insert k v m

-- The loop over os.Environ(): what stands before and behind the first `=`.
unfoldable pub merge_environ : List String → Assoc String String → Assoc String String
merge_environ [] m = m
merge_environ (kv ∷ kvs) m = merge_environ kvs (insert_pair (cut 61 kv) m)

unfoldable pub merge_port : Config → Assoc String String → Assoc String String
merge_port cfg m =
    if str_eq cfg.target_bind_socket "" && ltb 0 cfg.target_port
    then insert "PORT" (itoa cfg.target_port) m
    else m

unfoldable pub merge_env : Assoc String String → Assoc String String → Assoc String String
merge_env [] m = m
merge_env ((k, v) ∷ env) m = merge_env env (insert k v m)

unfoldable pub merged : List String → Config → Assoc String String
merged environ cfg = merge_env cfg.env (merge_port cfg (merge_environ environ []))

unfoldable pub assignments : Assoc String String → List String
assignments [] = []
assignments ((k, v) ∷ m) = (k <> "=" <> v) ∷ assignments m

unfoldable pub build_env : List String → Config → List String
unfolding merged assignments
build_env environ cfg = assignments (merged environ cfg)
