-- ===== src/Upstream/Prepare.antt =====
-- internal/upstream/server.go: what Start checks and puts together before it launches the process.
use thrust_oauth2id_server.Prelude.{
  Bool, ◌≡◌, refl, ◌≢◌, String, true, false, ◌&&◌, not, List, str_eq, eq_iff, if◌then◌else◌,
  Bool-cases, inl, inr, ◌⊎◌, arith,
}
use thrust_oauth2id_server.Upstream.Command.{CommandError, empty_command, normalize_command}
use thrust_oauth2id_server.Upstream.Command
use thrust_oauth2id_server.Upstream.Environment.{Config, build_env}

-- os.Stat of a directory.
pub data Stat : Type 0 where
  there missing refused : Stat

pub data PrepareError : Type 0 where
  no_command : PrepareError
  bad_command : CommandError → PrepareError
  no_directory : PrepareError
  no_access : PrepareError

-- exec.Cmd; an empty `dir` is the server's own.
pub record Cmd : Type 0 where
  pub command : String
  pub args : List String
  pub dir : String
  pub env : List String

pub data Prepared : Type 0 where
  ready : Cmd → Prepared
  refuse : PrepareError → Prepared

abbrev pub in_directory : Stat → Cmd → Prepared
in_directory there cmd = ready cmd
in_directory missing cmd = refuse no_directory
in_directory refused cmd = refuse no_access

abbrev pub with_command :
    (String → Stat) → List String → Config → Command.Result (String × List String) → Prepared
with_command stat environ cfg (Command.err e) = refuse (bad_command e)
with_command stat environ cfg (Command.ok (command, args)) =
    let cmd : Cmd = record {
      command = command;
      args = args;
      dir = "";
      env = build_env environ cfg;
    } in
    if cfg.enabled && not (str_eq cfg.working_directory "")
    then in_directory (stat cfg.working_directory) (record cmd { dir = cfg.working_directory })
    else ready cmd

unfoldable pub prepare : (String → Stat) → List String → Config → Prepared
prepare stat environ cfg =
    if cfg.enabled && str_eq cfg.command ""
    then refuse no_command
    else with_command stat environ cfg (normalize_command cfg.command cfg.args)

-- What holds of a command that is launched.
pub record IsReady (stat : String → Stat) (environ : List String) (cfg : Config) (cmd : Cmd)
    : Type 0 where
  pub split : normalize_command cfg.command cfg.args ≡ Command.ok (cmd.command, cmd.args)
  pub env : cmd.env ≡ build_env environ cfg
  pub dir : (cmd.dir ≡ "") ⊎ ((cmd.dir ≡ cfg.working_directory) × (stat cmd.dir ≡ there))
  pub dir_enabled : (cfg.enabled ≡ true) ⊎ (cmd.dir ≡ "")

in_directory-ready :
    (s : Stat) (c cmd : Cmd) → in_directory s c ≡ ready cmd → (s ≡ there) × (c ≡ cmd)
in_directory-ready there c cmd h = (refl, cc)
in_directory-ready missing c cmd h = cc
in_directory-ready refused c cmd h = cc

&&-left : (a b : Bool) → a && b ≡ true → a ≡ true
&&-left a b h = ground arith

given_command :
    (enabled : Bool) (command : String)
    → enabled && str_eq command "" ≡ false
    → (enabled ≡ false) ⊎ (command ≢ "")
given_command false command h = inl refl
given_command true command h = inr (λ e. cc ((eq_iff command "").1 e, h))

with_command-IsReady :
    (stat : String → Stat) (environ : List String) (cfg : Config)
    (r : Command.Result (String × List String)) (cmd : Cmd)
    → normalize_command cfg.command cfg.args ≡ r
    → with_command stat environ cfg r ≡ ready cmd
    → IsReady stat environ cfg cmd
with_command-IsReady stat environ cfg (Command.err e) cmd split h = cc
with_command-IsReady stat environ cfg (Command.ok (command, args)) cmd split h =
    elim (Bool-cases (cfg.enabled && not (str_eq cfg.working_directory ""))) [
      | inl inside ↦
          let h' = rw inside at h in
          let (there', same) = in_directory-ready (stat cfg.working_directory) _ cmd h' in
          rw (← same) (record {
            split = split;
            env = refl;
            dir = inr (refl, there');
            dir_enabled = inl (&&-left cfg.enabled _ inside);
          })
      | inr outside ↦
          let h' = rw outside at h in
          let same : ◌≡◌ {A = Cmd} _ cmd = cc h' in
          rw (← same) (record { split = split; env = refl; dir = inl refl; dir_enabled = inr refl })
    ]

-- A command that Start launches has the program and the arguments that the command line splits into,
-- the merged environment, and the server's directory or the configured one, which is there; only an
-- enabled supervisor changes the directory, and it never launches an empty command line.
pub prepare-IsReady :
    (stat : String → Stat) (environ : List String) (cfg : Config) (cmd : Cmd)
    → prepare stat environ cfg ≡ ready cmd
    → IsReady stat environ cfg cmd × ((cfg.enabled ≡ false) ⊎ (cfg.command ≢ ""))
unfolding prepare
prepare-IsReady stat environ cfg cmd h = elim (Bool-cases (cfg.enabled && str_eq cfg.command "")) [
  | inl empty ↦ let h' = rw empty at h in cc
  | inr given ↦
      let h' = rw given at h in
      (
        with_command-IsReady stat environ cfg _ cmd refl h',
        given_command cfg.enabled cfg.command given,
      )
]
