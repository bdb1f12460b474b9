-- ===== src/Config/Value.antt =====
-- The values that the configuration is read into: Go's `map[string]interface{}`. The entries of a
-- map stand in the order in which a `range` over it visits them; a nil map has none.
use k3os.Base.{Bool, Option, none, some, List, if◌then◌else◌}
use k3os.Base.Text.{Text, ◌=ᵗ◌}
use k3os.Config.{StringMap}

mutual
  -- `str_map` is a `map[string]string`, and `other` any value of another type, by what `fmt` prints.
  pub data Value : Type 0 where
    str : Text → Value
    strs : List Text → Value
    flag : Bool → Value
    str_map : StringMap → Value
    other : Text → Value
    obj : Entries → Value

  pub data Entries : Type 0 where
    end : Entries
    entry : Text → Value → Entries → Entries

-- `m[key]`
unfoldable pub get_entry : Text → Entries → Option Value
unfolding ◌=ᵗ◌
get_entry key end = none
get_entry key (entry k v es) = if k =ᵗ key then some v else get_entry key es

-- `m[key] = val`
unfoldable pub put_entry : Text → Value → Entries → Entries
unfolding ◌=ᵗ◌
put_entry key val end = entry key val end
put_entry key val (entry k v es) =
    if k =ᵗ key then entry key val es else entry k v (put_entry key val es)

-- `delete(m, key)`
unfoldable pub delete_entry : Text → Entries → Entries
unfolding ◌=ᵗ◌
delete_entry key end = end
delete_entry key (entry k v es) =
    let rest = delete_entry key es in if k =ᵗ key then rest else entry k v rest
