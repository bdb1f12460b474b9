-- ===== src/Config/Rename.antt =====
-- pkg/config/rename.go: the other spellings of a field. `convert.ToYAMLKey` is a parameter.
pub mod Targets
use k3os.Base.{
  ℕ, zero, suc, Bool, ◌&&◌, Option, none, some, List, [], ◌∷◌, ltb, length, if◌then◌else◌,
}
use k3os.Base.Text.{Text, text, ◌=ᵗ◌, to_lower, has_suffix}
use k3os.Config.{StringMap}
use k3os.Config.Value.{Value, Entries, end, entry, put_entry}
use k3os.Util.Mask.{drop_last}
use k3os.Cc.Environment.{put, get, byte_length}

module _ (to_yaml_key : Text → Text) where
  -- `addName`
  unfoldable pub add_name : Text → Text → StringMap → StringMap
  unfolding put to_lower
  add_name name to_name names =
      put (to_lower (to_yaml_key name)) to_name
        (put (to_yaml_key name) to_name (put (to_lower name) to_name names))

  -- The body of the loop over the fields of the schema
  unfoldable pub add_field : Text → StringMap → StringMap
  unfolding add_name has_suffix byte_length
  add_field name names =
      let singular =
        if has_suffix name (text "s") && ltb 1 (byte_length name)
        then add_name (drop_last name) name names
        else names in
      let stem =
        if has_suffix name (text "es") && ltb 2 (byte_length name)
        then add_name (drop_last (drop_last name)) name singular
        else singular in
      add_name name name stem

  unfoldable pub add_fields : List Text → StringMap → StringMap
  unfolding add_field
  add_fields [] names = names
  add_fields (name ∷ fields) names = add_fields fields (add_field name names)

  -- `FuzzyNames.ModifySchema`, with the names of the schema's fields
  unfoldable pub fuzzy_names : List Text → StringMap
  unfolding add_fields put
  fuzzy_names fields =
      put (text "password") (text "passphrase")
        (put (text "pass") (text "passphrase") (add_fields fields []))

abbrev pub put_renamed : Text → Value → Option Text → Entries → Entries
put_renamed k v none m = m
put_renamed k v (some new_k) m = if new_k =ᵗ k then m else put_entry new_k v m

-- The range over the entries that the map had at first. A Go range may also visit an entry that the loop
-- adds, and yields the value that a key has by then; this one does neither, which makes no difference
-- where no spelling of one field is the name of another.
unfoldable pub rename_entries : StringMap → Entries → Entries → Entries
unfolding get put_entry ◌=ᵗ◌
rename_entries names end m = m
rename_entries names (entry k v es) m = rename_entries names es (put_renamed k v (get k names) m)

-- `FuzzyNames.ToInternal`
unfoldable pub fuzzy_to_internal : StringMap → Entries → Entries
unfolding rename_entries
fuzzy_to_internal names m = rename_entries names m m
