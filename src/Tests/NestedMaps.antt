-- ===== src/Tests/NestedMaps.antt =====
-- Access to nested maps by a list of keys, for the tests.
use k3os.Base.{
  subst, sym, ◌≡◌, refl, ◌∙◌, ap, true, false, ◌||◌, Option, none, some, List, [], ◌∷◌, arith,
  Option-cases, Bool-cases, inl, inr,
}
use k3os.Base.Text.{Text, ◌=ᵗ◌, =ᵗ-refl, =ᵗ_iff}
use k3os.Config.Value.{Value, obj, Entries, end, get_entry, put_entry}
use k3os.Config.Coerce.Fields.{get_entry-put_entry}
use k3os.Config.Cmdline.Repeated.{Accesses, is_same, are_apart}

-- The map behind an entry: a new one if there is no entry, `none` if there is another value.
abbrev map_behind : Option Value → Option Entries
map_behind none = some end
map_behind (some (obj m)) = some m
map_behind (some _) = none

abbrev stuck : Option Value → Value
stuck none = obj end
stuck (some v) = v

abbrev entry_of : Text → Option Entries → Option Value
entry_of k none = none
entry_of k (some n) = get_entry k n

unfoldable pub get_in : List Text → Option Value → Option Value
get_in [] o = o
get_in (k ∷ ks) o = get_in ks (entry_of k (map_behind o))

abbrev pub get_at : List Text → Entries → Option Value
get_at [] m = none
get_at (k ∷ ks) m = get_in ks (get_entry k m)

abbrev put_behind : Option Value → Text → (Option Value → Value) → Option Entries → Value
put_behind o k change none = stuck o
put_behind o k change (some n) = obj (put_entry k (change (get_entry k n)) n)

unfoldable pub put_in : List Text → Value → Option Value → Value
put_in [] v o = v
put_in (k ∷ ks) v o = put_behind o k (put_in ks v) (map_behind o)

abbrev pub put_at : List Text → Value → Entries → Entries
put_at [] v m = m
put_at (k ∷ ks) v m = put_entry k (put_in ks v (get_entry k m)) m

abbrev IsOpenBehind : (Option Value → Type 0) → Text → Option Entries → Type 0
IsOpenBehind P k none = ⊥
IsOpenBehind P k (some n) = P (get_entry k n)

abbrev IsOpenIn : List Text → Option Value → Type 0
IsOpenIn [] o = Unit
IsOpenIn (k ∷ ks) o = IsOpenBehind (IsOpenIn ks) k (map_behind o)

abbrev IsOpen : List Text → Entries → Type 0
IsOpen [] m = ⊥
IsOpen (k ∷ ks) m = IsOpenIn ks (get_entry k m)

get_same : (k : Text) (v : Value) (m : Entries) → get_entry k (put_entry k v m) ≡ some v
get_same k v m = ground (arith, get_entry-put_entry k k v m, =ᵗ-refl k)

get_other :
    (k j : Text) (v : Value) (m : Entries)
    → (k =ᵗ j) ≡ false
    → get_entry j (put_entry k v m) ≡ get_entry j m
get_other k j v m h = ground (arith, get_entry-put_entry k j v m)

get_in-put_in :
    (ks : List Text) (v : Value) (o : Option Value)
    → IsOpenIn ks o
    → get_in ks (some (put_in ks v o)) ≡ some v
unfolding get_in put_in
get_in-put_in [] v o h = refl
get_in-put_in (k ∷ ks) v o h = behind (get_in-put_in ks v) (map_behind o) h
  where
    behind :
        ((o : Option Value) → IsOpenIn ks o → get_in ks (some (put_in ks v o)) ≡ some v)
        → (b : Option Entries) → IsOpenBehind (IsOpenIn ks) k b
        → get_in ks (entry_of k (map_behind (some (put_behind o k (put_in ks v) b)))) ≡ some v
    behind ih none h = absurd h
    behind ih (some n) h = rw get_same (ih (get_entry k n) h)

stuck_same : (o : Option Value) → map_behind o ≡ none → some (stuck o) ≡ o
stuck_same none e = absurd (ground arith)
stuck_same (some v) e = refl

-- One step of two lists of keys into a map
get_step :
    (ks js : List Text) (k j : Text) (v : Value) (n : Entries)
    → ((o : Option Value) → are_apart ks js ≡ true → get_in js (some (put_in ks v o)) ≡ get_in js o)
    → are_apart (k ∷ ks) (j ∷ js) ≡ true
    → get_in js (get_entry j (put_entry k (put_in ks v (get_entry k n)) n))
      ≡ get_in js (get_entry j n)
get_step ks js k j v n ih h = elim (Bool-cases (k =ᵗ j)) [
  | inl same ↦
      rw (get_entry-put_entry, same)
        (ih (get_entry k n) (ground (arith, =ᵗ_iff k j, =ᵗ_iff j k))
          ∙ ap (λ x. get_in js (get_entry x n)) ((=ᵗ_iff k j).0 same))
  | inr differ ↦ rw (get_other k j _ n differ) refl
]

IsOpenIn-step :
    (ks js : List Text) (k j : Text) (v : Value) (n : Entries)
    → ((o : Option Value)
        → (is_same ks js || are_apart ks js) ≡ true
        → IsOpenIn js o
        → IsOpenIn js (some (put_in ks v o)))
    → (is_same (k ∷ ks) (j ∷ js) || are_apart (k ∷ ks) (j ∷ js)) ≡ true
    → IsOpenIn js (get_entry j n)
    → IsOpenIn js (get_entry j (put_entry k (put_in ks v (get_entry k n)) n))
IsOpenIn-step ks js k j v n ih h opened = elim (Bool-cases (k =ᵗ j)) [
  | inl same ↦
      rw (get_entry-put_entry, same)
        (ih (get_entry k n) (ground (arith, =ᵗ_iff k j, =ᵗ_iff j k))
          (subst (λ x. IsOpenIn js (get_entry x n)) (sym ((=ᵗ_iff k j).0 same)) opened))
  | inr differ ↦ rw (get_other k j _ n differ) opened
]

get_in-apart :
    (ks js : List Text) (v : Value) (o : Option Value)
    → are_apart ks js ≡ true
    → get_in js (some (put_in ks v o)) ≡ get_in js o
unfolding get_in put_in
get_in-apart [] js v o h = absurd (ground arith)
get_in-apart (k ∷ ks) [] v o h = absurd (ground arith)
get_in-apart (k ∷ ks) (j ∷ js) v o h = elim (Option-cases (map_behind o)) [
  | inl e ↦ rw (e, stuck_same o e, e) refl
  | inr (n, e) ↦ rw e (get_step ks js k j v n (get_in-apart ks js v) h)
]

put_in-IsOpenIn :
    (ks js : List Text) (v : Value) (o : Option Value)
    → (is_same ks js || are_apart ks js) ≡ true
    → IsOpenIn js o
    → IsOpenIn js (some (put_in ks v o))
unfolding put_in
put_in-IsOpenIn ks [] v o h opened = tt
put_in-IsOpenIn [] (j ∷ js) v o h opened = absurd (ground arith)
put_in-IsOpenIn (k ∷ ks) (j ∷ js) v o h opened = elim (Option-cases (map_behind o)) [
  | inl e ↦ absurd (subst (IsOpenBehind (IsOpenIn js) j) e opened)
  | inr (n, e) ↦ rw e (
      IsOpenIn-step ks js k j v n (put_in-IsOpenIn ks js v) h
        (subst (IsOpenBehind (IsOpenIn js) j) e opened))
]

get_in-none : (ks : List Text) → get_in ks none ≡ none
unfolding get_in get_entry
get_in-none [] = refl
get_in-none (k ∷ ks) = get_in-none ks

put_at-IsOpen :
    (ks js : List Text) (v : Value) (m : Entries)
    → (is_same ks js || are_apart ks js) ≡ true
    → IsOpen js m
    → IsOpen js (put_at ks v m)
put_at-IsOpen ks [] v m h opened = absurd opened
put_at-IsOpen [] (j ∷ js) v m h opened = opened
put_at-IsOpen (k ∷ ks) (j ∷ js) v m h opened =
    IsOpenIn-step ks js k j v m (put_in-IsOpenIn ks js v) h opened

get_put :
    (ks : List Text) (v : Value) (m : Entries) → IsOpen ks m → get_at ks (put_at ks v m) ≡ some v
get_put [] v m h = absurd h
get_put (k ∷ ks) v m h = rw get_same (get_in-put_in ks v (get_entry k m) h)

get_apart :
    (ks js : List Text) (v : Value) (m : Entries)
    → are_apart ks js ≡ true
    → get_at js (put_at ks v m) ≡ get_at js m
get_apart ks [] v m h = refl
get_apart [] (j ∷ js) v m h = refl
get_apart (k ∷ ks) (j ∷ js) v m h = get_step ks js k j v m (get_in-apart ks js v) h

get_end : (ks : List Text) → get_at ks end ≡ none
unfolding get_entry
get_end [] = refl
get_end (k ∷ ks) = get_in-none ks

IsOpenIn-none : (ks : List Text) → IsOpenIn ks none
unfolding get_entry
IsOpenIn-none [] = tt
IsOpenIn-none (k ∷ ks) = IsOpenIn-none ks

pub nested : Accesses get_at put_at
unfolding get_entry
nested = record {
  IsOpen = IsOpen;
  open_end = λ k ks. IsOpenIn-none ks;
  open_put = put_at-IsOpen;
  get_end = get_end;
  get_put = get_put;
  get_apart = get_apart;
}
