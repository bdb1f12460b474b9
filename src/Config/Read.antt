-- ===== src/Config/Read.antt =====
-- pkg/config/read.go and `readCloudConfig` of read_cc.go: the sources of the configuration, and
-- their merge.
pub mod Sources
pub mod Reading
pub mod Latest
use k3os.Base.{Option, none, some, List, [], ◌∷◌, ◌++◌, map, false, is_nil, if◌then◌else◌}
use k3os.Base.Text.{Text, text, trim_space, split, is_empty}
use k3os.Base.FilePath.{join_path}
use k3os.Os.Call.{Error, not_exist, failed, Result, ok, err, read_file, read_dir}
use k3os.Os.Io.{Io, pure, raise, attempt, lift, ask_text, ask_names, ◌>>=◌}
use k3os.System.Roots.{root_path, local_path}
use k3os.Config.{CloudConfig, K3os, Install}
use k3os.Config.Mapper.{Mapper}
use k3os.Config.Value.{Value, str, strs, Entries, end, put_entry}
use k3os.Config.Cmdline.{read_cmdline}
use k3os.Config.UserData.{empty_config, empty_k3os, empty_install, read_user_data}

-- `SystemConfig`, `LocalConfig` and `localConfigs`
abbrev pub system_config : Text
system_config = root_path (text "config.yaml" ∷ [])

abbrev pub local_config : Text
local_config = local_path (text "config.yaml" ∷ [])

abbrev pub local_configs : Text
local_configs = local_path (text "config.d" ∷ [])

abbrev pub hostname_entry : Result Text → Entries
hostname_entry (ok name) = put_entry (text "hostname") (str (trim_space name)) end
hostname_entry (err e) = end

abbrev pub keys_of : List Text → List Text
keys_of [] = []
keys_of (line ∷ lines) =
    let key = trim_space line in
    let keys = keys_of lines in if is_empty key then keys else key ∷ keys

abbrev pub put_keys : List Text → Entries → Entries
put_keys keys m = if is_nil keys then m else put_entry (text "ssh_authorized_keys") (strs keys) m

abbrev pub with_keys : Result Text → Entries → Entries
with_keys (ok key_data) m = put_keys (keys_of (split 10 key_data)) m
with_keys (err e) m = m

-- `readCloudConfig`
unfoldable pub read_cloud_config : Io Entries
unfolding pure attempt ask_text ◌>>=◌ put_entry trim_space split
read_cloud_config = do
  hostname ← attempt (ask_text (read_file (text "/run/config/local_hostname")))
  key_data ← attempt (ask_text (read_file (text "/run/config/ssh/authorized_keys")))
  pure (with_keys key_data (hostname_entry hostname))

module _ (mapper : Mapper) where
  abbrev pub file_entries : Result Text → Result Entries
  file_entries (ok contents) = mapper.unmarshal contents
  file_entries (err (not_exist e)) = ok end
  file_entries (err (failed e)) = err (failed e)

  -- `readFile`
  unfoldable pub read_entries : Text → Io Entries
  unfolding attempt ask_text lift ◌>>=◌
  read_entries path = do
    contents ← attempt (ask_text (read_file path))
    lift (file_entries contents)

  abbrev pub local_readers : Result (List Text) → List (Io Entries)
  local_readers (ok names) =
      map (λ name. read_entries (join_path (local_configs ∷ name ∷ []))) names
  local_readers (err (not_exist e)) = []
  local_readers (err (failed e)) = raise (failed e) ∷ []

  -- `readLocalConfigs`
  unfoldable pub read_local_configs : Io (List (Io Entries))
  unfolding pure attempt ask_names ◌>>=◌
  read_local_configs = do
    names ← attempt (ask_names (read_dir local_configs))
    pure (local_readers names)

  -- The loop of `merge`, from the data that were merged before
  unfoldable pub merge_from : Entries → List (Io Entries) → Io Entries
  merge_from m [] = pure m
  merge_from m (r ∷ readers) = do
    entries ← r
    new ← lift (mapper.to_internal entries)
    merge_from (mapper.update_merge m new) readers

  -- `merge`
  unfoldable pub merge : List (Io Entries) → Io Entries
  unfolding merge_from
  merge readers = merge_from end readers

  -- `readSystemConfig`
  abbrev pub read_system_config : Io Entries
  read_system_config = read_entries system_config

  -- `readLocalConfig`
  abbrev pub read_local_config : Io Entries
  read_local_config = read_entries local_config

  -- `readers`
  abbrev pub first_readers : List (Io Entries)
  first_readers =
      read_system_config
      ∷ read_cmdline mapper
      ∷ read_local_config
      ∷ read_cloud_config
      ∷ read_user_data mapper
      ∷ []

  -- The configuration that is filled in
  abbrev pub initial_config : CloudConfig
  initial_config = record empty_config { k3os = record empty_k3os { install = some empty_install } }

  -- `readersToObject`
  unfoldable pub readers_to_object : List (Io Entries) → Io CloudConfig
  unfolding lift ◌>>=◌ merge
  readers_to_object readers = do m ← merge readers; lift (mapper.to_object m initial_config)

  -- `ReadConfig`
  unfoldable pub read_config : Io CloudConfig
  unfolding ◌>>=◌ read_local_configs readers_to_object
  read_config = do locals ← read_local_configs; readers_to_object (first_readers ++ locals)
