-- ===== src/Cli/App.antt =====
-- pkg/cli/app/app.go: the sub-commands and what each of them runs. How the package cli reads the
-- arguments is a parameter.
pub mod Checks
use k3os.Base.{ℕ, Bool, Option, none, some, List, [], ◌∷◌, if◌then◌else◌}
use k3os.Base.Text.{Text, text, ◌=ᵗ◌}
use k3os.Os.Call.{Result, ok, err, failed}
use k3os.Os.Io.{Io, pure, raise, attempt, ◌>>=◌, ◌>>◌}
use k3os.Mode.{get_mode}
use k3os.Config.{CloudConfig}
use k3os.Config.Mapper.{Mapper}
use k3os.Cc.Apply.{Tools}
use k3os.Rc.Run as Rc
use k3os.Rc.Run.{run_rc}
use k3os.Upgrade as Upgrade
use k3os.Upgrade.{run_upgrade}
use k3os.Cliinstall.Asking.{Terminal}
use k3os.Cli as Cli
use k3os.Cli.{config_command}
use k3os.Cli.Installing.{install_command}
use k3os.Cli.Spec.{AppSpec, app_spec}

-- The values of the flags, by their names
pub record Values : Type 0 where
  pub switched : Text → Bool
  pub written : Text → Text

-- What becomes of the arguments: help, a version or an error is printed, or a command of that name is
-- run with the values of its flags.
pub data Routed : Type 0 where
  printed : Routed
  command : Text → Values → Routed

-- The destinations of the flags of `upgrade`
unfoldable pub upgrade_flags : Values → Upgrade.Flags
upgrade_flags v = record {
  upgrade_k3os = v.switched (text "k3os");
  upgrade_k3s = v.switched (text "k3s");
  upgrade_kernel = v.switched (text "kernel");
  upgrade_root_fs = v.switched (text "rootfs");
  do_remount = v.switched (text "remount");
  do_sync = v.switched (text "sync");
  do_reboot = v.switched (text "reboot");
  source_dir = v.written (text "source");
  destination_dir = v.written (text "destination");
  lock_file = v.written (text "lock-file");
}

-- The destinations of the flags of `config`
unfoldable pub config_flags : Values → Cli.Flags
config_flags v = record {
  initrd = v.switched (text "initrd");
  boot_phase = v.switched (text "boot");
  install_phase = v.switched (text "install");
  dump = v.switched (text "dump");
  dump_json = v.switched (text "dump-json");
}

abbrev pub upgrade_if : Option Upgrade.Flags → Io (Unit {0})
upgrade_if none = raise (failed (text "exit status 1"))
upgrade_if (some flags) = run_upgrade flags

-- `Before` and `Action` of `upgrade`
unfoldable pub upgrade_command : Upgrade.Flags → Io (Unit {0})
upgrade_command flags = upgrade_if (Upgrade.before flags)

-- `Before` and `Action` of `rc`
unfoldable pub rc_command : (ℕ → ℕ → ℕ) → (Text → Option (List (List Text))) → Io (Unit {0})
rc_command mkdev read_all = Rc.before >> run_rc mkdev read_all

-- `New`
unfoldable pub new_app : Text → Io AppSpec
new_app version = do mode ← attempt (get_mode []); pure (app_spec version mode)

module _ (mkdev : ℕ → ℕ → ℕ) (read_all : Text → Option (List (List Text))) (mapper : Mapper)
    (to_json : CloudConfig → Result Text) (tools : Tools) (program : Text)
    (terminal : Terminal) where
  -- The command of a name; an error of `config` other than that of `Before` is only logged.
  unfoldable pub run_command : Text → Values → Io (Unit {0})
  run_command name v =
      if name =ᵗ text "rc"
      then rc_command mkdev read_all
      else if name =ᵗ text "config"
      then (config_command mapper to_json tools (config_flags v) >> pure tt)
      else if name =ᵗ text "install"
      then install_command mapper program terminal
      else if name =ᵗ text "upgrade"
      then upgrade_command (upgrade_flags v)
      else pure tt

  unfoldable pub run_routed : Routed → Io (Unit {0})
  run_routed printed = pure tt
  run_routed (command name v) = run_command name v

  -- `Run` of the application
  unfoldable pub run_app : (AppSpec → List Text → Routed) → AppSpec → List Text → Io (Unit {0})
  run_app route app args = run_routed (route app args)
