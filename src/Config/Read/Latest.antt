-- ===== src/Config/Read/Latest.antt =====
-- pkg/config/read.go: which source decides a field.
use k3os.Base.{
  ◌≡◌, refl, ◌∙◌, ap, Bool, false, Option, none, some, List, [], ◌∷◌, All, arith, Option-cases, inl,
  inr,
}
use k3os.Base.Text.{Text}
use k3os.Os.Call.{ok, Os, History}
use k3os.Os.Io.{Io}
use k3os.Config.Mapper.{Mapper}
use k3os.Config.Value.{Value, Entries, end, get_entry}
use k3os.Config.Rename.Targets.{or_entry}
use k3os.Config.Schema.Typed.{is_obj}
use k3os.Config.Read.{merge}
use k3os.Config.Read.Sources.{Reads, merge_all, merge_from-of_Reads}

-- What `merge.UpdateMerge` does to an entry, unless it merges two maps.
pub record Overrides (update_merge : Entries → Entries → Entries) : Type 0 where
  pub keeps :
      (k : Text) (m new : Entries)
      → get_entry k new ≡ none
      → get_entry k (update_merge m new) ≡ get_entry k m
  pub replaces :
      (k : Text) (v : Value) (m new : Entries)
      → get_entry k new ≡ some v
      → is_obj v ≡ false
      → get_entry k (update_merge m new) ≡ some v

abbrev pub is_map : Option Value → Bool
is_map none = false
is_map (some v) = is_obj v

-- The value that stands last under the key
abbrev pub latest : Text → List Entries → Option Value
latest k [] = none
latest k (new ∷ news) = or_entry (latest k news) (get_entry k new)

module _ (mapper : Mapper) (laws : Overrides mapper.update_merge) (os : Os) (k : Text) where
  get_entry-update_merge :
      (m new : Entries)
      → is_map (get_entry k new) ≡ false
      → get_entry k (mapper.update_merge m new) ≡ or_entry (get_entry k new) (get_entry k m)
  get_entry-update_merge m new plain = elim (Option-cases (get_entry k new)) [
    | inl e ↦ rw e (laws.keeps k m new e)
    | inr (v, e) ↦ rw e (laws.replaces k v m new e (ground arith))
  ]

  or_entry_assoc : (a b c : Option Value) → or_entry a (or_entry b c) ≡ or_entry (or_entry a b) c
  or_entry_assoc none b c = refl
  or_entry_assoc (some a) b c = refl

  or_entry-none : (a : Option Value) → or_entry a none ≡ a
  or_entry-none none = refl
  or_entry-none (some v) = refl

  get_entry-merge_all :
      (m : Entries) (news : List Entries)
      → All (λ new. is_map (get_entry k new) ≡ false) news
      → get_entry k (merge_all mapper os m news) ≡ or_entry (latest k news) (get_entry k m)
  get_entry-merge_all m [] plain = refl
  get_entry-merge_all m (new ∷ news) (p, plain) =
      get_entry-merge_all (mapper.update_merge m new) news plain
      ∙ ap (or_entry (latest k news)) (get_entry-update_merge m new p)
      ∙ or_entry_assoc (latest k news) (get_entry k new) (get_entry k m)

  -- After a merge that succeeds, a key has the value that the last of the sources that have the key
  -- gives it, and none if no source has it. No source has a map under the key, which would be merged;
  -- and an entry that is merged replaces the old one, or leaves it if it is missing.
  pub merge-latest :
      (readers : List (Io Entries)) (news : List Entries) (result : Entries) (h h' : History)
      → Reads mapper os readers news h h'
      → All (λ new. is_map (get_entry k new) ≡ false) news
      → merge mapper readers os h ≡ (ok result, h')
      → get_entry k result ≡ latest k news
  unfolding merge get_entry
  merge-latest readers news result h h' reads plain e =
      let merged : result ≡ merge_all mapper os end news =
        ground (arith, merge_from-of_Reads mapper os end readers news h h' reads) in
      ap (get_entry k) merged ∙ get_entry-merge_all end news plain ∙ or_entry-none (latest k news)
