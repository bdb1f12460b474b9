-- ===== src/Config/Schema/Typed.antt =====
-- pkg/config/read.go, coerce.go and rename.go: the fields after all mappers of a schema.
use k3os.Base.{
  ◌≡◌, refl, ◌∙◌, sym, ap, Bool, true, false, Option, none, some, List, [], ◌∷◌, arith,
  if◌then◌else◌,
}
use k3os.Base.Text.{Text, text, ◌=ᵗ◌, =ᵗ_iff}
use k3os.Config.Value.{Value, str, strs, flag, str_map, other, obj, Entries, get_entry}
use k3os.Config.Coerce.{
  Converter, convert_fields, to_map, to_slice, to_bool, maps_to_internal, slices_to_internal,
  bools_to_internal,
}
use k3os.Config.Coerce.Fields.{map_option, has_field, NodupFields, get_entry-convert_fields}
use k3os.Config.Rename.{fuzzy_names, fuzzy_to_internal}
use k3os.Config.Schema.{field_names, default_mappers}

-- `Mappers.ToInternal` runs the last mapper first.
pub record RunsLastFirst (run : List (Entries → Entries) → Entries → Entries) : Type 0 where
  pub run_nil : (m : Entries) → run [] m ≡ m
  pub run_cons :
      (f : Entries → Entries) (fs : List (Entries → Entries)) (m : Entries)
      → run (f ∷ fs) m ≡ f (run fs m)

abbrev pub is_str : Value → Bool
is_str (str s) = true
is_str _ = false

abbrev pub is_obj : Value → Bool
is_obj (obj m) = true
is_obj _ = false

-- What a converter leaves of a field of its type
abbrev pub IsTyped : Text → Value → Type 0
IsTyped type v =
    ((type =ᵗ text "boolean") ≡ true → is_str v ≡ false)
    × ((type =ᵗ text "array[string]") ≡ true → is_str v ≡ false)
    × ((type =ᵗ text "map[string]") ≡ true → is_obj v ≡ false)

abbrev pub type_of : Text → List (Text × Text) → Option Text
type_of j [] = none
type_of j ((name, type) ∷ fields) = if name =ᵗ j then some type else type_of j fields

has_field-type_of :
    (field_type type j : Text) (fields : List (Text × Text))
    → type_of j fields ≡ some type
    → has_field field_type j fields ≡ (type =ᵗ field_type)
has_field-type_of field_type type j [] h = ground arith
has_field-type_of field_type type j ((name, type') ∷ fields) h =
    ground (arith, has_field-type_of field_type type j fields)

exclusive : (s t u : Text) → (t =ᵗ u) ≡ false → (s =ᵗ t) ≡ true → (s =ᵗ u) ≡ false
exclusive s t u h e = ap (λ x. x =ᵗ u) ((=ᵗ_iff s t).0 e) ∙ h

to_bool-is_str : (v : Value) → is_str (to_bool v) ≡ false
unfolding to_bool
to_bool-is_str (str s) = refl
to_bool-is_str (strs s) = refl
to_bool-is_str (flag s) = refl
to_bool-is_str (str_map s) = refl
to_bool-is_str (other s) = refl
to_bool-is_str (obj s) = refl

to_slice-is_str : (v : Value) → is_str (to_slice v) ≡ false
to_slice-is_str (str s) = refl
to_slice-is_str (strs s) = refl
to_slice-is_str (flag s) = refl
to_slice-is_str (str_map s) = refl
to_slice-is_str (other s) = refl
to_slice-is_str (obj s) = refl

to_map-is_obj : (to_string : Value → Text) (v : Value) → is_obj (to_map to_string v) ≡ false
to_map-is_obj to_string (str s) = refl
to_map-is_obj to_string (strs s) = refl
to_map-is_obj to_string (flag s) = refl
to_map-is_obj to_string (str_map s) = refl
to_map-is_obj to_string (other s) = refl
to_map-is_obj to_string (obj s) = refl

abbrev converted : Text → Text → Converter → Option Value → Option Value
converted type field_type c o = if type =ᵗ field_type then map_option c o else o

-- The value of a field after the three converters
converted-IsTyped :
    (to_string : Value → Text) (type : Text) (o : Option Value) (v : Value)
    → converted type
        (text "map[string]")
        (to_map to_string)
        (converted type (text "array[string]") to_slice (converted type (text "boolean") to_bool o))
      ≡ some v
    → IsTyped type v
unfolding ◌=ᵗ◌
converted-IsTyped to_string type none v h = absurd (ground arith)
converted-IsTyped to_string type (some w) v h = (
  λ e.
      let not_array = exclusive type (text "boolean") (text "array[string]") refl e in
      let not_map = exclusive type (text "boolean") (text "map[string]") refl e in
      ground (arith, to_bool-is_str w),
  λ e.
      let not_boolean = exclusive type (text "array[string]") (text "boolean") refl e in
      let not_map = exclusive type (text "array[string]") (text "map[string]") refl e in
      ground (arith, to_slice-is_str w),
  λ e.
      let not_boolean = exclusive type (text "map[string]") (text "boolean") refl e in
      let not_array = exclusive type (text "map[string]") (text "array[string]") refl e in
      ground (arith, to_map-is_obj to_string w),
)

run_four :
    (run : List (Entries → Entries) → Entries → Entries) (laws : RunsLastFirst run)
    (f₁ f₂ f₃ f₄ : Entries → Entries) (m : Entries)
    → run (f₁ ∷ f₂ ∷ f₃ ∷ f₄ ∷ []) m ≡ f₁ (f₂ (f₃ (f₄ m)))
run_four run laws f₁ f₂ f₃ f₄ m =
    laws.run_cons f₁ (f₂ ∷ f₃ ∷ f₄ ∷ []) m
    ∙ ap f₁ (
        laws.run_cons f₂ (f₃ ∷ f₄ ∷ []) m
        ∙ ap f₂
            (laws.run_cons f₃ (f₄ ∷ []) m ∙ ap f₃ (laws.run_cons f₄ [] m ∙ ap f₄ (laws.run_nil m))))

module _ (fields : List (Text × Text)) (once : NodupFields fields) (j type : Text) where
  get_entry-converted :
      (field_type : Text) (c : Converter) (m : Entries)
      → type_of j fields ≡ some type
      → get_entry j (convert_fields field_type c fields m)
        ≡ converted type field_type c (get_entry j m)
  get_entry-converted field_type c m known =
      get_entry-convert_fields field_type c fields j m once
      ∙ ap (λ b. if b then map_option c (get_entry j m) else get_entry j m)
          (has_field-type_of field_type type j fields known)

-- After the mappers of a schema, whose fields have different names, a field holds no string if its type
-- is a Boolean or a list of strings, and no map of other values if its type is a map of strings. The
-- package that runs the mappers begins with the last one.
pub default_mappers-IsTyped :
    (run : List (Entries → Entries) → Entries → Entries) (laws : RunsLastFirst run)
    (to_string : Value → Text) (to_yaml_key : Text → Text) (fields : List (Text × Text))
    (j type : Text) (m : Entries) (v : Value)
    → NodupFields fields
    → type_of j fields ≡ some type
    → get_entry j (run (default_mappers to_string to_yaml_key fields) m) ≡ some v
    → IsTyped type v
unfolding default_mappers maps_to_internal slices_to_internal bools_to_internal
default_mappers-IsTyped run laws to_string to_yaml_key fields j type m v once known found =
    let renamed = fuzzy_to_internal (fuzzy_names to_yaml_key (field_names fields)) m in
    let bools = bools_to_internal fields renamed in
    let slices = slices_to_internal fields bools in
    let maps = maps_to_internal to_string fields slices in
    let step = get_entry-converted fields once j type in
    let fuzzy = fuzzy_to_internal (fuzzy_names to_yaml_key (field_names fields)) in
    let ran =
      run_four run laws (maps_to_internal to_string fields) (slices_to_internal fields)
        (bools_to_internal fields) fuzzy m in
    let bool = step (text "boolean") to_bool renamed known in
    let slice =
      step (text "array[string]") to_slice bools known
      ∙ ap (λ o. converted type (text "array[string]") to_slice o) bool in
    let map =
      step (text "map[string]") (to_map to_string) slices known
      ∙ ap (λ o. converted type (text "map[string]") (to_map to_string) o) slice in
    converted-IsTyped to_string type (get_entry j renamed) v
      (sym map ∙ sym (ap (get_entry j) ran) ∙ found)
