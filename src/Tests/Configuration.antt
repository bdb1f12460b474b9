-- ===== src/Tests/Configuration.antt =====
-- The sources of the configuration, and its command.
use k3os.Base.{arith, All, ◌≡◌, ◌↔◌, refl, true, false, List, [], ◌∷◌}
use k3os.Base.Text.{Text, text, ◌=ᵗ◌, fields}
use k3os.Os.Call.{ok, Result, History}
use k3os.Os.Io.{Io, pure, lift, ◌>>=◌}
use k3os.Os.Adds.{Adds}
use k3os.Config.Mapper.{Mapper}
use k3os.Config.Value.{str, strs, Entries, end, entry, get_entry, put_entry}
use k3os.Config.Coerce.Fields.{get_entry-put_entry}
use k3os.Config.Rename.Targets.{or_entry}
use k3os.Config.Read.{read_cloud_config, merge}
use k3os.Config.Read.Sources.{Reads, merge_all, merge-Reads_iff}
use k3os.Config.Read.Latest.{is_map, Overrides, latest, merge-latest}
use k3os.Cc.Apply.Network.{IsOffline}
use k3os.Cli.{Flags, config_command}
use k3os.Cli.Phases.{config_command-IsOffline}
use k3os.Tests.NestedMaps.{get_at, put_at}
use k3os.Tests.Data.{fresh_system, tools}
use k3os.Tests.Values.{printed}

abbrev overlay : Entries → Entries → Entries
overlay m end = m
overlay m (entry k v es) = put_entry k v (overlay m es)

abbrev pub plain_mapper : Mapper
plain_mapper = record {
  to_base64 = λ t. t;
  find_all = λ t. fields t;
  print = printed;
  unmarshal = λ t. ok (entry (text "hostname") (str t) end);
  marshal = λ m. ok (text "{}");
  marshal_config = λ c. ok (text "k3os: {}");
  to_yaml_key = λ t. t;
  encode = λ c. ok (entry (text "hostname") (str c.hostname) end);
  encode_install = λ i. ok end;
  to_object = λ m c. ok c;
  to_internal = λ m. ok m;
  update_merge = overlay;
  get_value = get_at;
  put_value = put_at;
}

abbrev readers : List (Io Entries)
readers = read_cloud_config ∷ read_cloud_config ∷ []

abbrev merged_twice : Result Entries × History
merged_twice = merge plain_mapper readers fresh_system []

abbrev passwd_line : Text
passwd_line = text "rancher:x:1000:1000::/home/rancher:/bin/bash"

abbrev read_once : Entries
read_once =
    entry (text "hostname") (str passwd_line)
      (entry (text "ssh_authorized_keys") (strs (passwd_line ∷ [])) end)

abbrev both : Entries
both =
    entry (text "ssh_authorized_keys") (strs (passwd_line ∷ []))
      (entry (text "hostname") (str passwd_line) end)

merge-Reads_iff_example :
    (merge plain_mapper readers fresh_system [] ≡ (ok both, merged_twice.1)) ↔ (
      (news : List Entries) × Reads plain_mapper fresh_system readers news [] merged_twice.1
      × (both ≡ merge_all plain_mapper fresh_system end news))
merge-Reads_iff_example = merge-Reads_iff plain_mapper fresh_system readers both [] merged_twice.1

get_entry-overlay :
    (k : Text) (m new : Entries)
    → get_entry k (overlay m new) ≡ or_entry (get_entry k new) (get_entry k m)
unfolding get_entry
get_entry-overlay k m end = refl
get_entry-overlay k m (entry j v es) =
    ground (arith, get_entry-put_entry j k v (overlay m es), get_entry-overlay k m es)

overlay-Overrides : Overrides overlay
overlay-Overrides = record {
  keeps = λ k m new e. ground (arith, get_entry-overlay k m new);
  replaces = λ k v m new e plain. ground (arith, get_entry-overlay k m new);
}

abbrev once_read : List Entries
once_read = read_once ∷ read_once ∷ []

once_read-Reads : Reads plain_mapper fresh_system readers once_read [] merged_twice.1
unfolding read_cloud_config merge lift
once_read-Reads = (read_once, refl, refl, (read_once, refl, refl, refl))

merged_both : merge plain_mapper readers fresh_system [] ≡ (ok both, merged_twice.1)
unfolding merge ◌>>=◌ read_cloud_config lift pure put_entry ◌=ᵗ◌
merged_both = refl

plain_names : All (λ new. is_map (get_entry (text "hostname") new) ≡ false) once_read
unfolding get_entry
plain_names = (refl, (refl, tt))

merge-latest_example : get_entry (text "hostname") both ≡ latest (text "hostname") once_read
merge-latest_example =
    merge-latest plain_mapper overlay-Overrides fresh_system (text "hostname") readers once_read
      both [] merged_twice.1 once_read-Reads plain_names merged_both

abbrev boot_flags : Flags
boot_flags = record {
  initrd = false;
  boot_phase = true;
  install_phase = false;
  dump = false;
  dump_json = false;
}

config_command-IsOffline_example :
    Adds IsOffline (config_command plain_mapper (λ c. ok []) tools boot_flags)
config_command-IsOffline_example =
    config_command-IsOffline plain_mapper (λ c. ok []) tools boot_flags refl
