-- ===== src/Config/Cmdline/Repeated.antt =====
-- `readCmdline` of pkg/config/read.go: items that name the same keys.
use k3os.Base.{
  ◌≡◌, refl, sym, ap, ◌∙◌, inl, inr, Option, none, some, List, [], ◌∷◌, ◌++◌, All, Bool, true,
  false, not, ◌&&◌, ◌||◌, append_assoc, append-nil, subst, arith, Bool-cases, if◌then◌else◌,
}
use k3os.Base.Text.{Text, ◌=ᵗ◌, =ᵗ-sound}
use k3os.Config.Value.{Value, str, strs, flag, str_map, other, obj, Entries, end}
use k3os.Config.Cmdline.{Item, put_next, put_items}

abbrev pub is_prefix : List Text → List Text → Bool
is_prefix [] js = true
is_prefix (k ∷ ks) [] = false
is_prefix (k ∷ ks) (j ∷ js) = k =ᵗ j && is_prefix ks js

abbrev pub is_same : List Text → List Text → Bool
is_same [] [] = true
is_same [] (j ∷ js) = false
is_same (k ∷ ks) [] = false
is_same (k ∷ ks) (j ∷ js) = k =ᵗ j && is_same ks js

is_same_sound : (ks js : List Text) → is_same ks js ≡ true → ks ≡ js
is_same_sound [] [] h = refl
is_same_sound [] (j ∷ js) h = cc
is_same_sound (k ∷ ks) [] h = cc
is_same_sound (k ∷ ks) (j ∷ js) h = ground (arith, =ᵗ-sound k j, is_same_sound ks js)

-- Neither leads to the other.
abbrev pub are_apart : List Text → List Text → Bool
are_apart ks js = not (is_prefix ks js) && not (is_prefix js ks)

-- Every item of the list names these keys, or keys of which neither leads to the other.
abbrev pub KeepsClear : List Text → List Item → Type 0
KeepsClear js items = All (λ i. (is_same i.0 js || are_apart i.0 js) ≡ true) items

-- What `values.GetValue` and `values.PutValue` do on a map that holds maps: the keys are open in a map
-- if there are any and no value but a map stands on the way to them.
pub record Accesses (get_value : List Text → Entries → Option Value)
    (put_value : List Text → Value → Entries → Entries) : Type 1 where
  pub IsOpen : List Text → Entries → Type 0
  pub open_end : (k : Text) (ks : List Text) → IsOpen (k ∷ ks) end
  pub open_put :
      (ks js : List Text) (v : Value) (m : Entries)
      → (is_same ks js || are_apart ks js) ≡ true
      → IsOpen js m
      → IsOpen js (put_value ks v m)
  pub get_end : (ks : List Text) → get_value ks end ≡ none
  pub get_put :
      (ks : List Text) (v : Value) (m : Entries)
      → IsOpen ks m
      → get_value ks (put_value ks v m) ≡ some v
  pub get_apart :
      (ks js : List Text) (v : Value) (m : Entries)
      → are_apart ks js ≡ true
      → get_value js (put_value ks v m) ≡ get_value js m

-- The values of the items with the keys, in their order.
pub values_at : List Text → List Item → List Text
values_at js [] = []
values_at js ((ks, v) ∷ items) =
    if is_same ks js then v ∷ values_at js items else values_at js items

-- Nothing, the one value, or the list of all
abbrev pub collected : List Text → Option Value
collected [] = none
collected (v ∷ []) = some (str v)
collected (v ∷ w ∷ vs) = some (strs (v ∷ w ∷ vs))

module _ (get_value : List Text → Entries → Option Value)
    (put_value : List Text → Value → Entries → Entries) (laws : Accesses get_value put_value) where
  put_next-same :
      (js vs : List Text) (v : Text) (m : Entries)
      → laws.IsOpen js m
      → get_value js m ≡ collected vs
      → get_value js (put_next get_value put_value js v (get_value js m) m)
        ≡ collected (vs ++ v ∷ [])
  put_next-same js [] v m o h = rw h (laws.get_put js (str v) m o)
  put_next-same js (w ∷ []) v m o h = rw h (laws.get_put js (strs (w ∷ v ∷ [])) m o)
  put_next-same js (w ∷ x ∷ vs) v m o h = rw h (laws.get_put js (strs (w ∷ x ∷ vs ++ v ∷ [])) m o)

  put_next-IsOpen :
      (ks js : List Text) (v : Text) (o : Option Value) (m : Entries)
      → (is_same ks js || are_apart ks js) ≡ true
      → laws.IsOpen js m
      → laws.IsOpen js (put_next get_value put_value ks v o m)
  put_next-IsOpen ks js v none m h k = laws.open_put ks js (str v) m h k
  put_next-IsOpen ks js v (some (str w)) m h k = laws.open_put ks js (strs (w ∷ v ∷ [])) m h k
  put_next-IsOpen ks js v (some (strs ws)) m h k = laws.open_put ks js (strs (ws ++ v ∷ [])) m h k
  put_next-IsOpen ks js v (some (flag w)) m h k = k
  put_next-IsOpen ks js v (some (str_map w)) m h k = k
  put_next-IsOpen ks js v (some (other w)) m h k = k
  put_next-IsOpen ks js v (some (obj w)) m h k = k

  put_next-apart :
      (ks js : List Text) (v : Text) (o : Option Value) (m : Entries)
      → are_apart ks js ≡ true
      → get_value js (put_next get_value put_value ks v o m) ≡ get_value js m
  put_next-apart ks js v none m h = laws.get_apart ks js (str v) m h
  put_next-apart ks js v (some (str w)) m h = laws.get_apart ks js (strs (w ∷ v ∷ [])) m h
  put_next-apart ks js v (some (strs ws)) m h = laws.get_apart ks js (strs (ws ++ v ∷ [])) m h
  put_next-apart ks js v (some (flag w)) m h = refl
  put_next-apart ks js v (some (str_map w)) m h = refl
  put_next-apart ks js v (some (other w)) m h = refl
  put_next-apart ks js v (some (obj w)) m h = refl

  -- The value under the keys after the items, from the values that were collected before.
  put_items-collected :
      (js : List Text) (items : List Item) (before : List Text) (m : Entries)
      → KeepsClear js items
      → laws.IsOpen js m
      → get_value js m ≡ collected before
      → get_value js (put_items get_value put_value items m)
        ≡ collected (before ++ values_at js items)
  unfolding put_items values_at
  put_items-collected js [] before m h o e = e ∙ ap collected (sym (append-nil before))
  put_items-collected js ((ks, v) ∷ items) before m (h, hs) o e =
      elim (Bool-cases (is_same ks js)) [
        | inl same ↦
            let keys_eq = is_same_sound ks js same in
            let next = put_next-same js before v m o e in
            let moved : get_value js (put_next get_value put_value ks v (get_value ks m) m)
                ≡ collected (before ++ v ∷ []) =
              subst
                (λ k.
                  get_value js (put_next get_value put_value k v (get_value k m) m)
                  ≡ collected (before ++ v ∷ []))
                (sym keys_eq) next in
            rw same (
              put_items-collected js items (before ++ v ∷ []) _ hs
                (put_next-IsOpen ks js v (get_value ks m) m h o) moved
              ∙ ap collected (append_assoc before (v ∷ []) (values_at js items)))
        | inr differ ↦ rw differ (
            put_items-collected js items before _ hs
              (put_next-IsOpen ks js v (get_value ks m) m h o)
              (put_next-apart ks js v (get_value ks m) m (ground arith) ∙ e))
      ]

  -- The values of all items that name the same keys are kept, in their order: one value as it is, and
  -- more than one as a list. Every other item names keys of which neither leads to the other; and maps
  -- are read and changed as the laws say.
  pub put_items-values_at :
      (j : Text) (js : List Text) (items : List Item)
      → KeepsClear (j ∷ js) items
      → get_value (j ∷ js) (put_items get_value put_value items end)
        ≡ collected (values_at (j ∷ js) items)
  put_items-values_at j js items h =
      put_items-collected (j ∷ js) items [] end h (laws.open_end j js) (laws.get_end (j ∷ js))
