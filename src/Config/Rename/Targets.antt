-- ===== src/Config/Rename/Targets.antt =====
-- pkg/config/rename.go: the fields that other spellings lead to, and the entries that stay.
use k3os.Base.{
  ◌≡◌, refl, Bool, true, false, not, ◌&&◌, ◌||◌, Option, none, some, List, [], ◌∷◌, All, any_of,
  inl, inr, arith, Bool-cases, Option-cases, if◌then◌else◌,
}
use k3os.Base.Text.{Text, text, ◌=ᵗ◌, =ᵗ-refl, to_lower}
use k3os.Config.{StringMap}
use k3os.Config.Value.{Value, Entries, end, entry, get_entry}
use k3os.Config.Coerce.Fields.{get_entry-put_entry}
use k3os.Config.Rename.{
  add_name, add_field, add_fields, fuzzy_names, put_renamed, rename_entries, fuzzy_to_internal,
}
use k3os.Util.Mask.{drop_last}
use k3os.Cc.Environment.{get, put}
use k3os.Cc.Environment.Precedence.{get-put}

-- Every name in the map leads to a target that passes the test.
abbrev pub LeadsTo : (Text → Bool) → StringMap → Type 0
LeadsTo ok names = (k t : Text) → get k names ≡ some t → ok t ≡ true

put-LeadsTo :
    (ok : Text → Bool) (key target : Text) (names : StringMap)
    → ok target ≡ true
    → LeadsTo ok names
    → LeadsTo ok (put key target names)
put-LeadsTo ok key target names good l k t h = elim (Bool-cases (key =ᵗ k)) [
  | inl same ↦ ground (arith, get-put key target k names)
  | inr other ↦ ground (arith, get-put key target k names, l k t)
]

module _ (to_yaml_key : Text → Text) (ok : Text → Bool) where
  add_name-LeadsTo :
      (name target : Text) (names : StringMap)
      → ok target ≡ true
      → LeadsTo ok names
      → LeadsTo ok (add_name to_yaml_key name target names)
  unfolding add_name
  add_name-LeadsTo name target names good l =
      put-LeadsTo ok (to_lower (to_yaml_key name)) target _ good (
        put-LeadsTo ok (to_yaml_key name) target _ good
          (put-LeadsTo ok (to_lower name) target names good l))

  if-LeadsTo :
      (b : Bool) (m n : StringMap) → LeadsTo ok m → LeadsTo ok n → LeadsTo ok (if b then m else n)
  if-LeadsTo true m n l k = l
  if-LeadsTo false m n l k = k

  add_field-LeadsTo :
      (name : Text) (names : StringMap)
      → ok name ≡ true
      → LeadsTo ok names
      → LeadsTo ok (add_field to_yaml_key name names)
  unfolding add_field
  add_field-LeadsTo name names good l =
      let l₁ = if-LeadsTo _ _ _ (add_name-LeadsTo (drop_last name) name names good l) l in
      let l₂ = if-LeadsTo _ _ _ (add_name-LeadsTo (drop_last (drop_last name)) name _ good l₁) l₁ in
      add_name-LeadsTo name name _ good l₂

  add_fields-LeadsTo :
      (fields : List Text) (names : StringMap)
      → All (λ f. ok f ≡ true) fields
      → LeadsTo ok names
      → LeadsTo ok (add_fields to_yaml_key fields names)
  unfolding add_fields
  add_fields-LeadsTo [] names good l = l
  add_fields-LeadsTo (f ∷ fields) names (g, good) l =
      add_fields-LeadsTo fields (add_field to_yaml_key f names) good (add_field-LeadsTo f names g l)

abbrev pub is_target : List Text → Text → Bool
is_target fields t = any_of (λ f. f =ᵗ t) fields || t =ᵗ text "passphrase"

targets_among :
    (all fields : List Text)
    → ((f : Text) → any_of (λ g. g =ᵗ f) fields ≡ true → is_target all f ≡ true)
    → All (λ f. is_target all f ≡ true) fields
targets_among all [] h = tt
targets_among all (f ∷ fields) h =
    (h f (ground (arith, =ᵗ-refl f)), targets_among all fields λ g e. h g (ground arith))

-- Every spelling that is known leads to a field of the schema, or to `passphrase`, which `pass` and
-- `password` lead to in every schema.
pub fuzzy_names-is_target :
    (to_yaml_key : Text → Text) (fields : List Text) (k t : Text)
    → get k (fuzzy_names to_yaml_key fields) ≡ some t
    → is_target fields t ≡ true
unfolding fuzzy_names
fuzzy_names-is_target to_yaml_key fields =
    put-LeadsTo (is_target fields) (text "password") (text "passphrase") _ passphrase (
      put-LeadsTo (is_target fields) (text "pass") (text "passphrase") _ passphrase (
        add_fields-LeadsTo to_yaml_key (is_target fields) fields []
          (targets_among fields fields λ f e. ground arith)
          λ k t h. absurd (unfold get in ground arith)))
  where
    passphrase : is_target fields (text "passphrase") ≡ true
    passphrase = ground (arith, =ᵗ-refl (text "passphrase"))

-- Whether the key is another spelling of `j`.
abbrev pub leads_to : Text → Text → Option Text → Bool
leads_to j k none = false
leads_to j k (some t) = t =ᵗ j && not (t =ᵗ k)

-- The value of the last entry that stands under another spelling of `j`.
pub last_led : StringMap → Text → Entries → Option Value
last_led names j end = none
last_led names j (entry k v es) = elim (last_led names j es) [
  | some w ↦ some w
  | none ↦ if leads_to j k (get k names) then some v else none
]

abbrev pub or_entry : Option Value → Option Value → Option Value
or_entry none b = b
or_entry (some a) b = some a

get_entry-rename_entries :
    (names : StringMap) (j : Text) (es m : Entries)
    → get_entry j (rename_entries names es m) ≡ or_entry (last_led names j es) (get_entry j m)
unfolding rename_entries last_led
get_entry-rename_entries names j end m = refl
get_entry-rename_entries names j (entry k v es) m = elim (Option-cases (get k names)) [
  | inl unknown ↦
      ground (arith, get_entry-rename_entries names j es m, Option-cases (last_led names j es))
  | inr (t, known) ↦ ground (
    arith,
    get_entry-put_entry t j v m,
    get_entry-rename_entries names j es (put_renamed k v (get k names) m),
    Option-cases (last_led names j es),
  )
]

-- After the renaming a field has the value that stands last under another of its spellings; where
-- there is none, it has the value that it had.
pub get_entry-fuzzy_to_internal :
    (names : StringMap) (j : Text) (m : Entries)
    → get_entry j (fuzzy_to_internal names m) ≡ or_entry (last_led names j m) (get_entry j m)
unfolding fuzzy_to_internal
get_entry-fuzzy_to_internal names j m = get_entry-rename_entries names j m m
