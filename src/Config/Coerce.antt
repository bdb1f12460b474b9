-- ===== src/Config/Coerce.antt =====
-- pkg/config/coerce.go: the converters of the fields of a type. The fields of a schema are the list
-- of its names and types, in the order in which their mappers run. `convert.ToString` is a parameter.
pub mod Fields
use k3os.Base.{Bool, Option, none, some, List, [], ◌∷◌, if◌then◌else◌}
use k3os.Base.Text.{Text, text, ◌=ᵗ◌}
use k3os.Config.{StringMap}
use k3os.Config.Value.{
  Value, str, strs, flag, str_map, other, obj, Entries, end, entry, get_entry, put_entry,
}

-- `Converter`
abbrev pub Converter : Type 0
Converter = Value → Value

abbrev pub put_converted : Converter → Text → Option Value → Entries → Entries
put_converted converter field none m = m
put_converted converter field (some val) m = put_entry field (converter val) m

-- `fieldConverter.ToInternal`
unfoldable pub convert_field : Converter → Text → Entries → Entries
unfolding get_entry put_entry
convert_field converter field m = put_converted converter field (get_entry field m) m

-- The mappers that `typeConverter.ModifySchema` collects, and their `ToInternal`
unfoldable pub convert_fields : Text → Converter → List (Text × Text) → Entries → Entries
unfolding convert_field ◌=ᵗ◌
convert_fields field_type converter [] m = m
convert_fields field_type converter ((name, type) ∷ fields) m =
    convert_fields field_type converter fields
      (if type =ᵗ field_type then convert_field converter name m else m)

abbrev pub string_entries : (Value → Text) → Entries → StringMap
string_entries to_string end = []
string_entries to_string (entry k v es) = (k, to_string v) ∷ string_entries to_string es

-- The converter of `NewToMap`
abbrev pub to_map : (Value → Text) → Converter
to_map to_string (obj m) = str_map (string_entries to_string m)
to_map to_string val = val

-- The converter of `NewToSlice`
abbrev pub to_slice : Converter
to_slice (str s) = strs (s ∷ [])
to_slice val = val

-- The converter of `NewToBool`
unfoldable pub to_bool : Converter
unfolding ◌=ᵗ◌
to_bool (str s) = flag (s =ᵗ text "true")
to_bool val = val

-- `NewToMap`, `NewToSlice` and `NewToBool`
unfoldable pub maps_to_internal : (Value → Text) → List (Text × Text) → Entries → Entries
unfolding convert_fields
maps_to_internal to_string = convert_fields (text "map[string]") (to_map to_string)

unfoldable pub slices_to_internal : List (Text × Text) → Entries → Entries
unfolding convert_fields
slices_to_internal = convert_fields (text "array[string]") to_slice

unfoldable pub bools_to_internal : List (Text × Text) → Entries → Entries
unfolding convert_fields to_bool
bools_to_internal = convert_fields (text "boolean") to_bool
