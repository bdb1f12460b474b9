-- ===== src/Config/Env/Leaves.antt =====
-- `mapToEnv` of pkg/config/read.go: the variables, and the paths of the values that are no maps.
use mathlib.Core.Path.{ap₂}
use k3os.Base.{◌≡◌, refl, ap, ◌∙◌, sym, List, [], ◌∷◌, ◌++◌, map, append_assoc, append-nil, arith}
use k3os.Base.Text.{Text, text, to_upper}
use k3os.Config.Value.{Value, str, strs, flag, str_map, other, obj, Entries, end, entry}
use k3os.Config.Env.{variable, map_to_env, value_to_env}

-- A value that is no map: the key at the top, the keys below it, and the value.
abbrev pub Leaf : Type 0
Leaf = Text × List Text × Value

abbrev pub under : Text → List Leaf → List Leaf
under k [] = []
under k ((first, keys, v) ∷ leaves) = (k, first ∷ keys, v) ∷ under k leaves

unfoldable mutual
  pub leaves : Entries → List Leaf
  leaves end = []
  leaves (entry k v es) = leaves_at k v ++ leaves es

  pub leaves_at : Text → Value → List Leaf
  leaves_at k (obj m) = under k (leaves m)
  leaves_at k (str s) = (k, [], str s) ∷ []
  leaves_at k (strs s) = (k, [], strs s) ∷ []
  leaves_at k (flag s) = (k, [], flag s) ∷ []
  leaves_at k (str_map s) = (k, [], str_map s) ∷ []
  leaves_at k (other s) = (k, [], other s) ∷ []

to_upper-append : (s t : Text) → to_upper (s ++ t) ≡ to_upper s ++ to_upper t
unfolding to_upper
to_upper-append [] t = refl
to_upper-append (c ∷ s) t = ground (arith, to_upper-append s t)

to_upper_idem : (s : Text) → to_upper (to_upper s) ≡ to_upper s
unfolding to_upper
to_upper_idem [] = refl
to_upper_idem (c ∷ s) = ground (arith, to_upper_idem s)

map-append : (f : Leaf → Text) (xs ys : List Leaf) → map f (xs ++ ys) ≡ map f xs ++ map f ys
map-append f [] ys = refl
map-append f (x ∷ xs) ys = ap (λ r. f x ∷ r) (map-append f xs ys)

module _ (print : Value → Text) (to_yaml_key : Text → Text) where
  abbrev pub below : List Text → Text
  below [] = []
  below (k ∷ keys) = text "_" ++ (to_yaml_key k ++ below keys)

  -- The path in capitals, joined by underscores after the prefix, and the value
  abbrev pub leaf_variable : Text → Leaf → Text
  leaf_variable prefix (k, keys, v) =
      variable (to_upper (prefix ++ (to_yaml_key k ++ below keys))) (print v)

  nested_name :
      (p k rest : Text)
      → to_upper ((to_upper (p ++ k) ++ text "_") ++ rest)
        ≡ to_upper (p ++ (k ++ (text "_" ++ rest)))
  nested_name p k rest =
      to_upper-append (to_upper (p ++ k) ++ text "_") rest
      ∙ ap (λ r. r ++ to_upper rest)
          (to_upper-append (to_upper (p ++ k)) (text "_")
            ∙ ap (λ r. r ++ to_upper (text "_")) (to_upper_idem (p ++ k))
            ∙ sym (to_upper-append (p ++ k) (text "_")))
      ∙ sym (to_upper-append ((p ++ k) ++ text "_") rest)
      ∙ ap to_upper (append_assoc (p ++ k) (text "_") rest ∙ append_assoc p k (text "_" ++ rest))

  nested :
      (p k : Text) (ls : List Leaf)
      → map (leaf_variable (to_upper (p ++ to_yaml_key k) ++ text "_")) ls
        ≡ map (leaf_variable p) (under k ls)
  nested p k [] = refl
  nested p k ((first, keys, v) ∷ ls) =
      ap₂ (λ name rest. variable name (print v) ∷ rest)
        (nested_name p (to_yaml_key k) (to_yaml_key first ++ below keys)) (nested p k ls)

  mutual
    unfolding map_to_env leaves

    map_to_env-leaves :
        (p : Text) (es : Entries)
        → map_to_env print to_yaml_key p es ≡ map (leaf_variable p) (leaves es)
    map_to_env-leaves p end = refl
    map_to_env-leaves p (entry k v es) =
        ap₂ (λ a b. a ++ b) (value_to_env-leaves p k v) (map_to_env-leaves p es)
        ∙ sym (map-append (leaf_variable p) (leaves_at k v) (leaves es))

    value_to_env-leaves :
        (p k : Text) (v : Value)
        → value_to_env print to_yaml_key (to_upper (p ++ to_yaml_key k)) v
          ≡ map (leaf_variable p) (leaves_at k v)
    value_to_env-leaves p k (obj m) =
        map_to_env-leaves (to_upper (p ++ to_yaml_key k) ++ text "_") m ∙ nested p k (leaves m)
    value_to_env-leaves p k (str s) = rw append-nil
    value_to_env-leaves p k (strs s) = rw append-nil
    value_to_env-leaves p k (flag s) = rw append-nil
    value_to_env-leaves p k (str_map s) = rw append-nil
    value_to_env-leaves p k (other s) = rw append-nil

  -- There is one variable for each value that is no map: its name is the prefix and the keys that
  -- lead to the value, as YAML keys, in capitals and joined by underscores, and it holds what is
  -- printed of the value.
  pub map_to_env_lem :
      (prefix : Text) (m : Entries)
      → map_to_env print to_yaml_key prefix m ≡ map (leaf_variable prefix) (leaves m)
  map_to_env_lem prefix m = map_to_env-leaves prefix m
