-- ===== src/Config/Coerce/Fields.antt =====
-- pkg/config/coerce.go: what the converters do to a field, and what they leave.
use k3os.Base.{
  ◌≡◌, refl, subst, Bool, false, Option, none, some, List, [], ◌∷◌, All, inl, inr, arith,
  Bool-cases, Option-cases, if◌then◌else◌,
}
use k3os.Base.Text.{Text, ◌=ᵗ◌, =ᵗ_iff}
use k3os.Config.Value.{
  Value, str, strs, flag, str_map, other, obj, Entries, end, entry, get_entry, put_entry,
}
use k3os.Config.Coerce.{Converter, convert_field, convert_fields, to_map, to_slice, to_bool}

pub get_entry-put_entry :
    (key j : Text) (val : Value) (m : Entries)
    → get_entry j (put_entry key val m) ≡ (if key =ᵗ j then some val else get_entry j m)
unfolding get_entry put_entry
get_entry-put_entry key j val end = refl
get_entry-put_entry key j val (entry k v es) =
    ground (arith, =ᵗ_iff k key, =ᵗ_iff k j, =ᵗ_iff key j, get_entry-put_entry key j val es)

abbrev pub map_option : Converter → Option Value → Option Value
map_option c none = none
map_option c (some v) = some (c v)

get_entry-convert_field :
    (c : Converter) (field j : Text) (m : Entries)
    → get_entry j (convert_field c field m)
      ≡ (if field =ᵗ j then map_option c (get_entry j m) else get_entry j m)
unfolding convert_field
get_entry-convert_field c field j m = elim (Option-cases (get_entry field m)) [
  | inl missing ↦ ground (arith, =ᵗ_iff field j)
  | inr (v, there) ↦ ground (arith, =ᵗ_iff field j, get_entry-put_entry field j (c v) m)
]

-- Whether a field of that name and type is among the fields.
abbrev pub has_field : Text → Text → List (Text × Text) → Bool
has_field field_type j [] = false
has_field field_type j ((name, type) ∷ fields) =
    if name =ᵗ j then type =ᵗ field_type else has_field field_type j fields

-- No field stands twice, as in the Go map of them.
abbrev pub NodupFields : List (Text × Text) → Type 0
NodupFields [] = Unit
NodupFields ((name, type) ∷ fields) = All (λ f. (name =ᵗ f.0) ≡ false) fields × NodupFields fields

convert_fields-absent :
    (field_type : Text) (c : Converter) (fields : List (Text × Text)) (j : Text) (m : Entries)
    → All (λ f. (j =ᵗ f.0) ≡ false) fields
    → get_entry j (convert_fields field_type c fields m) ≡ get_entry j m
unfolding convert_fields
convert_fields-absent field_type c [] j m h = refl
convert_fields-absent field_type c ((name, type) ∷ fields) j m h = ground (
  arith,
  =ᵗ_iff name j,
  =ᵗ_iff j name,
  get_entry-convert_field c name j m,
  convert_fields-absent field_type c fields j
      (if type =ᵗ field_type then convert_field c name m else m) h.1,
)

absent_same :
    (name j : Text) (fields : List (Text × Text))
    → name ≡ j
    → All (λ f. (name =ᵗ f.0) ≡ false) fields
    → All (λ f. (j =ᵗ f.0) ≡ false) fields
absent_same name j fields e = subst (λ n. All (λ f. (n =ᵗ f.0) ≡ false) fields) e

-- A type's converter is applied to the value of every field of that type, once, and to no other
-- entry. No field stands twice in the schema.
pub get_entry-convert_fields :
    (field_type : Text) (c : Converter) (fields : List (Text × Text)) (j : Text) (m : Entries)
    → NodupFields fields
    → get_entry j (convert_fields field_type c fields m)
      ≡ (if has_field field_type j fields then map_option c (get_entry j m) else get_entry j m)
unfolding convert_fields
get_entry-convert_fields field_type c [] j m u = refl
get_entry-convert_fields field_type c ((name, type) ∷ fields) j m (fresh, u) =
    let m' = if type =ᵗ field_type then convert_field c name m else m in
    elim (Bool-cases (name =ᵗ j)) [
      | inl same ↦ ground (
        arith,
        get_entry-convert_field c name j m,
        convert_fields-absent field_type c fields j m'
            (absent_same name j fields ((=ᵗ_iff name j).0 same) fresh),
      )
      | inr differ ↦ ground (
        arith,
        get_entry-convert_field c name j m,
        get_entry-convert_fields field_type c fields j m' u,
      )
    ]

-- The converters change nothing that they have converted: each of them may run again.
pub converters-idempotent :
    (to_string : Value → Text) (v : Value)
    → (to_map to_string (to_map to_string v) ≡ to_map to_string v)
      × (to_slice (to_slice v) ≡ to_slice v)
      × (to_bool (to_bool v) ≡ to_bool v)
unfolding to_bool
converters-idempotent to_string (str s) = (refl, refl, refl)
converters-idempotent to_string (strs s) = (refl, refl, refl)
converters-idempotent to_string (flag s) = (refl, refl, refl)
converters-idempotent to_string (str_map s) = (refl, refl, refl)
converters-idempotent to_string (other s) = (refl, refl, refl)
converters-idempotent to_string (obj s) = (refl, refl, refl)
