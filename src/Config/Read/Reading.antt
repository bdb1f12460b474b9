-- ===== src/Config/Read/Reading.antt =====
-- pkg/config/read.go and read_cc.go: the calls that reading the configuration makes.
use k3os.Base.{List, [], ◌∷◌, ◌++◌, map}
use k3os.Base.Text.{Text}
use k3os.Base.FilePath.{join_path}
use k3os.Os.Call.{Call, read_file, read_dir, not_exist, failed, Result, ok, err}
use k3os.Os.Io.{Io, lift, attempt, ask_names, pure, ◌>>=◌}
use k3os.Os.Adds.{Adds, Adds-bind, Since-trans, Since-call, adds_rules}
use k3os.Config.Mapper.{Mapper}
use k3os.Config.Value.{Entries}
use k3os.Config.Cmdline.{read_cmdline}
use k3os.Config.UserData.{read_user_data}
use k3os.Config.Read.{
  local_configs, system_config, local_config, read_cloud_config, read_entries, local_readers,
  read_local_configs, first_readers, merge_from, merge, readers_to_object, read_config,
}

-- A call that reads a file or a directory
abbrev pub IsReading : Call → Type 0
IsReading (read_file path) = Unit
IsReading (read_dir path) = Unit
IsReading _ = ⊥

module _ (P : Call → Type 0) where
  abbrev AllReading : List (Io Entries) → Type 0
  AllReading [] = Unit
  AllReading (r ∷ readers) = Adds P r × AllReading readers

  AllReading-append :
      (rs ss : List (Io Entries)) → AllReading rs → AllReading ss → AllReading (rs ++ ss)
  AllReading-append [] ss k l = l
  AllReading-append (r ∷ rs) ss (first, k) l = (first, AllReading-append rs ss k l)

module _ (P : Call → Type 0) (file : (path : Text) → P (read_file path))
    (directory : (path : Text) → P (read_dir path)) (mapper : Mapper) where
  read_entries-Adds : (path : Text) → Adds P (read_entries mapper path)
  unfolding read_entries
  read_entries-Adds path = search (adds_rules, file)

  read_cmdline-Adds : Adds P (read_cmdline mapper)
  unfolding read_cmdline
  read_cmdline-Adds = search (adds_rules, file)

  read_user_data-Adds : Adds P (read_user_data mapper)
  unfolding read_user_data
  read_user_data-Adds = search (adds_rules, file)

  read_cloud_config-Adds : Adds P read_cloud_config
  unfolding read_cloud_config
  read_cloud_config-Adds = search (adds_rules, file) depth 9

  read_local_configs-Adds : Adds P (read_local_configs mapper)
  unfolding read_local_configs
  read_local_configs-Adds = search (adds_rules, directory)

  first_readers-AllReading : AllReading P (first_readers mapper)
  first_readers-AllReading = (
    read_entries-Adds system_config,
    (
      read_cmdline-Adds,
      (read_entries-Adds local_config, (read_cloud_config-Adds, (read_user_data-Adds, tt))),
    ),
  )

  named-AllReading :
      (names : List Text)
      → AllReading P
          (map (λ name. read_entries mapper (join_path (local_configs ∷ name ∷ []))) names)
  named-AllReading [] = tt
  named-AllReading (name ∷ names) = (read_entries-Adds (join_path _), named-AllReading names)

  merge_from-Adds :
      (m : Entries) (readers : List (Io Entries))
      → AllReading P readers
      → Adds P (merge_from mapper m readers)
  unfolding merge_from
  merge_from-Adds m [] k = search adds_rules
  merge_from-Adds m (r ∷ readers) (first, rest) = Adds-bind P r _ first λ entries.
      Adds-bind P (lift (mapper.to_internal entries)) _ (search adds_rules)
        λ new. merge_from-Adds (mapper.update_merge m new) readers rest

  local-AllReading : (names : Result (List Text)) → AllReading P (local_readers mapper names)
  local-AllReading (ok names) = named-AllReading names
  local-AllReading (err (not_exist e)) = tt
  local-AllReading (err (failed e)) = (search adds_rules, tt)

  readers_to_object-Adds :
      (readers : List (Io Entries))
      → AllReading P readers
      → Adds P (readers_to_object mapper readers)
  unfolding readers_to_object merge
  readers_to_object-Adds readers k = search (adds_rules, merge_from-Adds _ readers k)

  pub read_config-Adds : Adds P (read_config mapper)
  unfolding read_config read_local_configs attempt ask_names ◌>>=◌ pure
  read_config-Adds = record {
    at = λ os h.
        let locals = os.names_of h (read_dir local_configs) in
        let all =
          AllReading-append P (first_readers mapper) (local_readers mapper locals)
            first_readers-AllReading (local-AllReading locals) in
        Since-trans P h _ _ (Since-call P (read_dir local_configs) h (directory local_configs)) (
          (readers_to_object-Adds (first_readers mapper ++ local_readers mapper locals) all).at os
            (read_dir local_configs ∷ h));
  }

-- Reading the configuration makes no call but to read files and directories, whatever the system
-- answers: it changes nothing and makes no request.
pub read_config-IsReading : (mapper : Mapper) → Adds IsReading (read_config mapper)
read_config-IsReading mapper = read_config-Adds IsReading (λ path. tt) (λ path. tt) mapper
