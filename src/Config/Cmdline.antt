-- ===== src/Config/Cmdline.antt =====
-- `readCmdline` of pkg/config/read.go: the kernel's command line as configuration. What the regular
-- expression finds, and the access to nested maps by a list of keys, are parameters.
pub mod Repeated
use k3os.Base.{Option, none, some, List, [], ◌∷◌, ◌++◌, ◌==◌, reverse, if◌then◌else◌}
use k3os.Base.Text.{Text, text, split, split_two}
use k3os.Os.Call.{Error, not_exist, failed, Result, ok, err, read_file}
use k3os.Os.Io.{Io, attempt, lift, ask_text, ◌>>=◌}
use k3os.Config.Mapper.{Mapper}
use k3os.Config.Value.{Value, str, strs, flag, str_map, other, obj, Entries, end}

abbrev pub drop_quotes : Text → Text
drop_quotes [] = []
drop_quotes (c ∷ s) = let rest = drop_quotes s in if c == b'"' then rest else c ∷ s

-- `strings.Trim(s, "\"")`
unfoldable pub trim_quotes : Text → Text
trim_quotes s = reverse (drop_quotes (reverse (drop_quotes s)))

-- The keys and the value of an item
abbrev pub Item : Type 0
Item = List Text × Text

abbrev pub item_of : Text × Option Text → Item
item_of (name, none) = (split b'.' (trim_quotes name), text "true")
item_of (name, some value) = (split b'.' (trim_quotes name), trim_quotes value)

unfoldable pub parse_item : Text → Item
unfolding split_two split trim_quotes
parse_item item = item_of (split_two b'=' item)

unfoldable pub items_of : List Text → List Item
unfolding parse_item
items_of [] = []
items_of (item ∷ items) = parse_item item ∷ items_of items

module _ (get_value : List Text → Entries → Option Value)
    (put_value : List Text → Value → Entries → Entries) where
  -- `switch v := existing.(type)`, or the first value
  abbrev pub put_next : List Text → Text → Option Value → Entries → Entries
  put_next keys value none m = put_value keys (str value) m
  put_next keys value (some (str v)) m = put_value keys (strs (v ∷ value ∷ [])) m
  put_next keys value (some (strs vs)) m = put_value keys (strs (vs ++ value ∷ [])) m
  put_next keys value (some _) m = m

  -- The loop over the items
  unfoldable pub put_items : List Item → Entries → Entries
  put_items [] m = m
  put_items ((keys, value) ∷ items) m = put_items items (put_next keys value (get_value keys m) m)

module _ (mapper : Mapper) where
  unfoldable pub cmdline_data : Text → Entries
  unfolding put_items items_of
  cmdline_data bytes =
      put_items mapper.get_value mapper.put_value (items_of (mapper.find_all bytes)) end

  abbrev pub cmdline_of : Result Text → Result Entries
  cmdline_of (ok bytes) = ok (cmdline_data bytes)
  cmdline_of (err (not_exist e)) = ok end
  cmdline_of (err (failed e)) = err (failed e)

  -- `readCmdline`
  unfoldable pub read_cmdline : Io Entries
  unfolding attempt ask_text lift ◌>>=◌ cmdline_data
  read_cmdline = do
    bytes ← attempt (ask_text (read_file (text "/proc/cmdline")))
    lift (cmdline_of bytes)
