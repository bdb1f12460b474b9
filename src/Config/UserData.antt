-- ===== src/Config/UserData.antt =====
-- `readUserData` of pkg/config/read_cc.go. `convert.EncodeToMap`, the YAML reader and the encoder of
-- base64 are parameters.
pub mod Script
use k3os.Base.{false, Option, none, some, List, [], ◌∷◌, if◌then◌else◌}
use k3os.Base.Text.{Text, text, contains, has_prefix}
use k3os.Os.Call.{Error, not_exist, failed, Result, ok, err, read_file}
use k3os.Os.Io.{Io, attempt, lift, ask_text, ◌>>=◌}
use k3os.Config.{CloudConfig, K3os, Install, File}
use k3os.Config.Mapper.{Mapper}
use k3os.Config.Value.{Entries, end}

abbrev pub empty_k3os : K3os
empty_k3os = record {
  data_sources = [];
  modules = [];
  sysctls = [];
  ntp_servers = [];
  dns_nameservers = [];
  wifi = [];
  password = [];
  server_url = [];
  token = [];
  labels = [];
  k3s_args = [];
  environment = [];
  taints = [];
  install = none;
}

-- `Install{}`
abbrev pub empty_install : Install
empty_install = record {
  force_efi = false;
  device = [];
  config_url = [];
  silent = false;
  iso_url = [];
  power_off = false;
  no_format = false;
  debug = false;
  tty = [];
}

-- `CloudConfig{}`
abbrev pub empty_config : CloudConfig
empty_config = record {
  ssh_authorized_keys = [];
  write_files = [];
  hostname = [];
  k3os = empty_k3os;
  runcmd = [];
  bootcmd = [];
  initcmd = [];
}

-- The configuration that a script stands for: its file, and the command that runs it.
abbrev pub script_config : Text → Text → CloudConfig
script_config content encoding = record empty_config {
  write_files =
      record {
        encoding = encoding;
        content = content;
        owner = text "root";
        path = text "/run/k3os/userdata";
        raw_file_permissions = text "0700";
      }
      ∷ [];
  runcmd = text "source /run/k3os/userdata" ∷ [];
}

-- `none` where the user data are no script
unfoldable pub script_of : (Text → Text) → Text → Option CloudConfig
unfolding contains has_prefix
script_of to_base64 contents =
    if contains contents (0 ∷ [])
    then some (script_config (to_base64 contents) (text "b64"))
    else if has_prefix contents (text "#!")
    then some (script_config contents [])
    else none

module _ (mapper : Mapper) where
  abbrev pub user_data_entries : Text → Option CloudConfig → Result Entries
  user_data_entries contents (some cc) = mapper.encode cc
  user_data_entries contents none = mapper.unmarshal contents

  abbrev pub user_data_of : Result Text → Result Entries
  user_data_of (ok contents) = user_data_entries contents (script_of mapper.to_base64 contents)
  user_data_of (err (not_exist e)) = ok end
  user_data_of (err (failed e)) = err (failed e)

  -- `readUserData`
  unfoldable pub read_user_data : Io Entries
  unfolding attempt ask_text lift ◌>>=◌ script_of
  read_user_data = do
    contents ← attempt (ask_text (read_file (text "/run/config/userdata")))
    lift (user_data_of contents)
