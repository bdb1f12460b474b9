-- ===== src/Cli/Spec.antt =====
-- The descriptions that the sub-commands give to the package cli: pkg/cli/upgrade/upgrade.go,
-- pkg/cli/config/config.go, pkg/cli/install/install.go, pkg/cli/rc/rc.go and pkg/cli/app/app.go. The
-- destination of a flag is the field of the same name in the record of the sub-command's flags.
use k3os.Base.{Bool, true, false, List, [], ◌∷◌, if◌then◌else◌}
use k3os.Base.Text.{Text, text, ◌=ᵗ◌, is_empty}
use k3os.Os.Call.{Result, ok, err}
use k3os.System.Roots.{root_path, state_path}

-- `cli.BoolFlag`, and `cli.StringFlag` with its value
pub data FlagKind : Type 0 where
  bool_flag : FlagKind
  string_flag : Text → FlagKind

-- The fields of a flag that the sub-commands set
pub record FlagSpec : Type 0 where
  pub name : Text
  pub kind : FlagKind
  pub usage : Text
  pub env_var : Text
  pub is_required : Bool
  pub is_hidden : Bool

-- `cli.Command` without its functions
pub record CommandSpec : Type 0 where
  pub name : Text
  pub short_name : Text
  pub usage : Text
  pub flags : List FlagSpec
  pub is_hidden : Bool

-- `cli.App` without its functions
pub record AppSpec : Type 0 where
  pub name : Text
  pub usage : Text
  pub version : Text
  pub flags : List FlagSpec
  pub commands : List CommandSpec

abbrev switch : Text → Text → Text → FlagSpec
switch name usage env_var = record {
  name = name;
  kind = bool_flag;
  usage = usage;
  env_var = env_var;
  is_required = false;
  is_hidden = false;
}

abbrev path_flag : Text → Text → Text → FlagSpec
path_flag name env_var value = record {
  name = name;
  kind = string_flag value;
  usage = [];
  env_var = env_var;
  is_required = false;
  is_hidden = false;
}

abbrev pub upgrade_spec : CommandSpec
upgrade_spec = record {
  name = text "upgrade";
  short_name = [];
  usage = text "perform upgrades";
  flags =
      record (switch (text "k3os") [] (text "K3OS_UPGRADE_K3OS")) { is_hidden = true }
      ∷ record (switch (text "k3s") [] (text "K3OS_UPGRADE_K3S")) { is_hidden = true }
      ∷ switch (text "kernel") (text "upgrade the kernel") (text "K3OS_UPGRADE_KERNEL")
      ∷ switch (text "rootfs") (text "upgrade k3os+k3s") (text "K3OS_UPGRADE_ROOTFS")
      ∷ switch (text "remount") (text "pre-upgrade remount?") (text "K3OS_UPGRADE_REMOUNT")
      ∷ switch (text "sync") (text "post-upgrade sync?") (text "K3OS_UPGRADE_SYNC")
      ∷ switch (text "reboot") (text "post-upgrade reboot?") (text "K3OS_UPGRADE_REBOOT")
      ∷ record (path_flag (text "source") (text "K3OS_UPGRADE_SOURCE") (root_path [])) {
        is_required = true;
      }
      ∷ record (path_flag (text "destination") (text "K3OS_UPGRADE_DESTINATION") (root_path [])) {
        is_required = true;
      }
      ∷ record (path_flag (text "lock-file") (text "K3OS_UPGRADE_LOCK_FILE")
          (state_path (text "upgrade.lock" ∷ []))) { is_hidden = true }
      ∷ [];
  is_hidden = false;
}

abbrev pub config_spec : CommandSpec
config_spec = record {
  name = text "config";
  short_name = text "cfg";
  usage = text "configure k3OS";
  flags =
      switch (text "initrd") (text "Run initrd stage") []
      ∷ switch (text "boot") (text "Run boot stage") []
      ∷ switch (text "install") (text "Run install stage") []
      ∷ switch (text "dump") (text "Print current configuration") []
      ∷ switch (text "dump-json") (text "Print current configuration in json") []
      ∷ [];
  is_hidden = false;
}

abbrev pub is_local : Result Text → Bool
is_local (ok mode) = mode =ᵗ text "local"
is_local (err e) = false

-- By what `mode.Get` returned, whose error is dropped
abbrev pub install_spec : Result Text → CommandSpec
install_spec mode = record {
  name = text "install";
  short_name = [];
  usage = text "install k3OS";
  flags = [];
  is_hidden = is_local mode;
}

abbrev pub rc_spec : CommandSpec
rc_spec = record {
  name = text "rc";
  short_name = [];
  usage = text "early phase \"run commands\" / \"run control\"";
  flags = [];
  is_hidden = false;
}

-- `New`, of the version and the mode
abbrev pub app_spec : Text → Result Text → AppSpec
app_spec version mode = record {
  name = text "k3os";
  usage = text "Booting to k3s so you don't have to";
  version = version;
  flags = switch (text "debug") (text "Turn on debug logs") (text "K3OS_DEBUG") ∷ [];
  commands = rc_spec ∷ config_spec ∷ install_spec mode ∷ upgrade_spec ∷ [];
}

-- `HasName`: a command is named by its name, and by its short name if it has one.
abbrev pub command_names : List CommandSpec → List Text
command_names [] = []
command_names (c ∷ commands) =
    let rest = command_names commands in
    c.name ∷ (if is_empty c.short_name then rest else c.short_name ∷ rest)
