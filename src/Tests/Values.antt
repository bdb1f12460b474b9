-- ===== src/Tests/Values.antt =====
-- The values of the configuration: mappers, spellings, variables, and items of the command line.
use k3os.Base.{◌⊎◌, ◌≡◌, refl, true, false, ◌||◌, none, some, List, [], ◌∷◌, map}
use k3os.Base.Text.{Text, text, ◌=ᵗ◌, contains, has_prefix}
use k3os.Config.{CloudConfig, StringMap}
use k3os.Config.Value.{Value, str, strs, obj, Entries, end, entry, get_entry}
use k3os.Config.Coerce.Fields.{NodupFields}
use k3os.Config.Rename.{fuzzy_names, fuzzy_to_internal}
use k3os.Config.Rename.Targets.{last_led, or_entry, get_entry-fuzzy_to_internal}
use k3os.Config.Schema.{default_mappers}
use k3os.Config.Schema.Typed.{RunsLastFirst, IsTyped, type_of, default_mappers-IsTyped}
use k3os.Config.Env.{map_to_env}
use k3os.Config.Env.Leaves.{leaf_variable, leaves, map_to_env_lem}
use k3os.Config.Cmdline.{Item, put_items}
use k3os.Config.Cmdline.Repeated.{KeepsClear, collected, values_at, put_items-values_at}
use k3os.Config.UserData.{script_of}
use k3os.Config.UserData.Script.{Runs, script_of-Runs}
use k3os.Cc.Environment.{get}
use k3os.Util.Decode.{Codec}
use k3os.Tests.NestedMaps.{get_at, put_at, nested}

abbrev pub printed : Value → Text
printed (str s) = s
printed v = text "?"

abbrev schema : List (Text × Text)
schema =
    (text "labels", text "map[string]")
    ∷ (text "dns_nameservers", text "array[string]")
    ∷ (text "silent", text "boolean")
    ∷ []

abbrev written : Entries
written =
    entry (text "silent") (str (text "true"))
      (entry (text "dns_nameserver") (str (text "8.8.8.8")) end)

abbrev run_mappers : List (Entries → Entries) → Entries → Entries
run_mappers [] m = m
run_mappers (f ∷ fs) m = f (run_mappers fs m)

last_first : RunsLastFirst run_mappers
last_first = record { run_nil = λ m. refl; run_cons = λ f fs m. refl }

nameservers_read :
    get_entry
      (text "dns_nameservers")
      (run_mappers (default_mappers printed (λ t. t) schema) written)
    ≡ some (strs (text "8.8.8.8" ∷ []))
unfolding get_entry default_mappers
nameservers_read = refl

schema-NodupFields : NodupFields schema
unfolding ◌=ᵗ◌
schema-NodupFields = ((refl, (refl, tt)), ((refl, tt), (tt, tt)))

nameservers_type : type_of (text "dns_nameservers") schema ≡ some (text "array[string]")
unfolding ◌=ᵗ◌
nameservers_type = refl

default_mappers-IsTyped_example : IsTyped (text "array[string]") (strs (text "8.8.8.8" ∷ []))
default_mappers-IsTyped_example =
    default_mappers-IsTyped run_mappers last_first printed (λ t. t) schema (text "dns_nameservers")
      (text "array[string]") written (strs (text "8.8.8.8" ∷ [])) schema-NodupFields
      nameservers_type nameservers_read

singular_known :
    get (text "dns_nameserver") (fuzzy_names (λ t. t) (text "dns_nameservers" ∷ []))
    ≡ some (text "dns_nameservers")
unfolding get fuzzy_names
singular_known = refl

abbrev spellings : StringMap
spellings = (text "pass", text "passphrase") ∷ (text "password", text "passphrase") ∷ []

abbrev two_spellings : Entries
two_spellings =
    entry (text "pass") (str (text "a"))
      (entry (text "password") (str (text "b")) (entry (text "passphrase") (str (text "c")) end))

get_entry-fuzzy_to_internal_example :
    get_entry (text "passphrase") (fuzzy_to_internal spellings two_spellings)
    ≡ or_entry
        (last_led spellings (text "passphrase") two_spellings)
        (get_entry (text "passphrase") two_spellings)
get_entry-fuzzy_to_internal_example =
    get_entry-fuzzy_to_internal spellings (text "passphrase") two_spellings

abbrev nested_entries : Entries
nested_entries =
    entry (text "hostname") (str (text "node"))
      (entry (text "k3os") (obj (entry (text "token") (str (text "secret")) end)) end)

map_to_env_lem_example :
    map_to_env printed (λ t. t) [] nested_entries
    ≡ map (leaf_variable printed (λ t. t) []) (leaves nested_entries)
map_to_env_lem_example = map_to_env_lem printed (λ t. t) [] nested_entries

abbrev items : List Item
items =
    (text "k3os" ∷ text "modules" ∷ [], text "kvm")
    ∷ (text "k3os" ∷ text "token" ∷ [], text "secret")
    ∷ (text "k3os" ∷ text "modules" ∷ [], text "nvme")
    ∷ []

items-KeepsClear : KeepsClear (text "k3os" ∷ text "modules" ∷ []) items
unfolding ◌=ᵗ◌
items-KeepsClear = (refl, (refl, (refl, tt)))

put_items-values_at_example :
    get_at (text "k3os" ∷ text "modules" ∷ []) (put_items get_at put_at items end)
    ≡ collected (values_at (text "k3os" ∷ text "modules" ∷ []) items)
put_items-values_at_example =
    put_items-values_at get_at put_at nested (text "k3os") (text "modules" ∷ []) items
      items-KeepsClear

abbrev plain_codec : Codec
plain_codec = record { base64 = λ t. some t; gunzip = λ t. none }

abbrev script : Text
script = text "#!/bin/sh\necho hello\n"

script_of-Runs_example :
    (((contains script (0 ∷ []) || has_prefix script (text "#!")) ≡ false)
      × (script_of (λ t. t) script ≡ none))
    ⊎ ((cc : CloudConfig) × ((contains script (0 ∷ []) || has_prefix script (text "#!")) ≡ true)
        × (script_of (λ t. t) script ≡ some cc)
        × Runs plain_codec script cc)
script_of-Runs_example = script_of-Runs plain_codec (λ t. t) script λ t. refl
