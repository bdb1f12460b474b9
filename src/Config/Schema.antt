-- ===== src/Config/Schema.antt =====
-- pkg/config/read.go: `DefaultMappers` of the schemas. The mappers that a schema runs are a list, and
-- the package `mapper`, which runs them, is a parameter.
pub mod Typed
use k3os.Base.{List, [], ◌∷◌, map}
use k3os.Base.Text.{Text}
use k3os.Config.Value.{Value, Entries}
use k3os.Config.Coerce.{maps_to_internal, slices_to_internal, bools_to_internal}
use k3os.Config.Rename.{fuzzy_names, fuzzy_to_internal}

abbrev pub field_names : List (Text × Text) → List Text
field_names [] = []
field_names ((name, type) ∷ fields) = name ∷ field_names fields

-- `DefaultMappers`, by the `ToInternal` of each
unfoldable pub default_mappers :
    (Value → Text) → (Text → Text) → List (Text × Text) → List (Entries → Entries)
unfolding maps_to_internal slices_to_internal bools_to_internal fuzzy_names fuzzy_to_internal
default_mappers to_string to_yaml_key fields =
    maps_to_internal to_string fields
    ∷ slices_to_internal fields
    ∷ bools_to_internal fields
    ∷ fuzzy_to_internal (fuzzy_names to_yaml_key (field_names fields))
    ∷ []
