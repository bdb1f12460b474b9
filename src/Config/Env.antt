-- ===== src/Config/Env.antt =====
-- `ToEnv` of pkg/config/read.go and pkg/config/write.go: the configuration as variables and as YAML.
pub mod Leaves
use k3os.Base.{Option, none, some, List, [], ◌∷◌, ◌++◌, if◌then◌else◌}
use k3os.Base.Text.{Text, text, ◌=ᵗ◌, to_upper}
use k3os.Os.Call.{Result, ok, err}
use k3os.Config.{CloudConfig, K3os, Install}
use k3os.Config.Mapper.{Mapper}
use k3os.Config.Value.{
  Value, str, strs, flag, str_map, other, obj, Entries, end, entry, put_entry, delete_entry,
}

abbrev pub on_ok {ℓ κ} : {A : Type ℓ} {B : Type κ} → Result A → (A → Result B) → Result B
on_ok (ok a) f = f a
on_ok (err e) f = err e

-- `fmt.Sprintf("%s=%v", keyName, v)`
abbrev pub variable : Text → Text → Text
variable key_name printed = key_name ++ (text "=" ++ printed)

module _ (print : Value → Text) (to_yaml_key : Text → Text) where
  unfoldable mutual
    -- `mapToEnv`
    pub map_to_env : Text → Entries → List Text
    map_to_env prefix end = []
    map_to_env prefix (entry k v es) =
        value_to_env (to_upper (prefix ++ to_yaml_key k)) v ++ map_to_env prefix es

    pub value_to_env : Text → Value → List Text
    value_to_env key_name (obj m) = map_to_env (key_name ++ text "_") m
    value_to_env key_name (str s) = variable key_name (print (str s)) ∷ []
    value_to_env key_name (strs s) = variable key_name (print (strs s)) ∷ []
    value_to_env key_name (flag s) = variable key_name (print (flag s)) ∷ []
    value_to_env key_name (str_map s) = variable key_name (print (str_map s)) ∷ []
    value_to_env key_name (other s) = variable key_name (print (other s)) ∷ []

abbrev pub move_entry : Text → Text → Value → Entries → Entries
move_entry k new_k v m =
    if new_k =ᵗ k then put_entry k v m else put_entry new_k v (delete_entry k m)

module _ (to_yaml_key : Text → Text) where
  unfoldable mutual
    unfolding put_entry delete_entry ◌=ᵗ◌

    -- The range of `toYAMLKeys` over the entries that the map had at first, changing the map `m`. A
    -- map that is a value is changed in place.
    pub move_entries : Entries → Entries → Entries
    move_entries end m = m
    move_entries (entry k v es) m = move_entries es (move_entry k (to_yaml_key k) (inside v) m)

    pub inside : Value → Value
    inside (obj m) = obj (move_entries m m)
    inside (str s) = str s
    inside (strs s) = strs s
    inside (flag s) = flag s
    inside (str_map s) = str_map s
    inside (other s) = other s

  -- `toYAMLKeys`
  unfoldable pub to_yaml_keys : Entries → Entries
  unfolding move_entries
  to_yaml_keys m = move_entries m m

module _ (mapper : Mapper) where
  -- `ToEnv`
  unfoldable pub to_env : CloudConfig → Result (List Text)
  unfolding map_to_env
  to_env cfg = on_ok (mapper.encode cfg) λ m. ok (map_to_env mapper.print mapper.to_yaml_key [] m)

  abbrev pub to_yaml : Entries → Result Text
  to_yaml m = mapper.marshal (to_yaml_keys mapper.to_yaml_key m)

  -- `PrintInstall`
  unfoldable pub print_install : CloudConfig → Result Text
  unfolding to_yaml_keys
  print_install cfg = on_ok (mapper.encode_install cfg.k3os.install) to_yaml

  -- `ToBytes`
  unfoldable pub to_bytes : CloudConfig → Result Text
  unfolding to_yaml_keys
  to_bytes cfg =
      on_ok (mapper.encode (record cfg { k3os = record cfg.k3os { install = none } })) to_yaml
