-- ===== src/Cli.antt =====
-- pkg/cli/config/config.go (and, in a module below, pkg/cli/install): the command `config`, with its
-- flags as an argument. The description of the flags is left out, and a message to the log.
pub mod Installing
pub mod Spec
pub mod App
pub mod Phases
use k3os.Base.{◌==◌, Bool, Option, none, some, List, [], ◌∷◌, ◌++◌, if◌then◌else◌}
use k3os.Base.Text.{Text, text}
use k3os.Os.Call.{Error, failed, Result, ok, err, getuid, write_open}
use k3os.Os.Io.{Io, pure, raise, attempt, lift, act, ask_number, ◌>>=◌, ◌>>◌}
use k3os.Enterchroot.Root.{in_context}
use k3os.Config.{CloudConfig}
use k3os.Config.Mapper.{Mapper}
use k3os.Config.Env.{to_bytes}
use k3os.Config.Read.{read_config}
use k3os.Cc.Apply.{Tools, run_apply, install_apply, boot_apply, init_apply}

-- The variables of the flags
pub record Flags : Type 0 where
  pub initrd : Bool
  pub boot_phase : Bool
  pub install_phase : Bool
  pub dump : Bool
  pub dump_json : Bool

-- `Before` of both commands
unfoldable pub must_be_root : Io (Unit {0})
must_be_root = do
  uid ← ask_number getuid
  if uid == 0 then pure tt else raise (failed (text "must be run as root"))

-- The list of the errors of something that stops at the first
abbrev pub as_errors : Result (Unit {0}) → List Error
as_errors (ok u) = []
as_errors (err e) = e ∷ []

unfoldable pub errors_of : Io (Unit {0}) → Io (List Error)
errors_of m = do r ← attempt m; pure (as_errors r)

-- `config.Write` to the standard output
unfoldable pub write_config : Mapper → CloudConfig → Io (Unit {0})
write_config mapper cfg = do
  bytes ← lift (in_context (text "failed to marshal []: ") (to_bytes mapper cfg))
  act (write_open (text "stdout") bytes)

module _ (mapper : Mapper) (to_json : CloudConfig → Result Text) (tools : Tools)
    (flags : Flags) where
  unfoldable pub write_json : CloudConfig → Io (Unit {0})
  write_json cfg = do bytes ← lift (to_json cfg); act (write_open (text "stdout") bytes)

  unfoldable pub apply_phase : CloudConfig → Io (List Error)
  apply_phase cfg =
      if flags.initrd
      then init_apply tools cfg
      else if flags.boot_phase
      then boot_apply tools cfg
      else if flags.install_phase
      then install_apply tools cfg
      else if flags.dump
      then errors_of (write_config mapper cfg)
      else if flags.dump_json
      then errors_of (write_json cfg)
      else run_apply tools cfg

  unfoldable pub after_read : Result CloudConfig → Io (List Error)
  after_read (ok cfg) = apply_phase cfg
  after_read (err e) = pure (e ∷ [])

  -- `Main`: the errors that it reports; an error of the reading is the only one.
  unfoldable pub main_config : Io (List Error)
  main_config = do cfg ← attempt (read_config mapper); after_read cfg

  -- `Before`, then the `Action`
  unfoldable pub config_command : Io (List Error)
  config_command = must_be_root >> main_config
