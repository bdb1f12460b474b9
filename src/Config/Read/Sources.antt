-- ===== src/Config/Read/Sources.antt =====
-- pkg/config/read.go: `merge`, and a description of it by the data of the readers.
use k3os.Base.{◌≡◌, ap, ◌∙◌, sym, ◌↔◌, List, [], ◌∷◌, inl, inr, arith}
use k3os.Os.Call.{ok, Result-cases, History, Os}
use k3os.Os.Io.{Io, pure, lift, ◌>>=◌}
use k3os.Config.Mapper.{Mapper}
use k3os.Config.Value.{Entries, end}
use k3os.Config.Read.{merge_from, merge}

module _ (mapper : Mapper) (os : Os) where
  -- The readers ran in turn and none failed; `news` are their data in the internal form.
  abbrev pub Reads : List (Io Entries) → List Entries → History → History → Type 0
  Reads [] [] h h' = h' ≡ h
  Reads [] (new ∷ news) h h' = ⊥
  Reads (r ∷ readers) [] h h' = ⊥
  Reads (r ∷ readers) (new ∷ news) h h' =
      (entries : Entries) × ((r os h).0 ≡ ok entries)
      × (mapper.to_internal entries ≡ ok new)
      × Reads readers news (r os h).1 h'

  abbrev pub merge_all : Entries → List Entries → Entries
  merge_all m [] = m
  merge_all m (new ∷ news) = merge_all (mapper.update_merge m new) news

  pub merge_from-of_Reads :
      (m : Entries) (readers : List (Io Entries)) (news : List Entries) (h h' : History)
      → Reads readers news h h'
      → merge_from mapper m readers os h ≡ (ok (merge_all m news), h')
  unfolding merge_from pure lift ◌>>=◌
  merge_from-of_Reads m [] [] h h' e = ground arith
  merge_from-of_Reads m [] (new ∷ news) h h' e = absurd e
  merge_from-of_Reads m (r ∷ readers) [] h h' e = absurd e
  merge_from-of_Reads m (r ∷ readers) (new ∷ news) h h' (entries, e₁, e₂, rest) =
      rw (e₁, e₂) (merge_from-of_Reads (mapper.update_merge m new) readers news (r os h).1 h' rest)

  -- What a merge that succeeds has read
  abbrev Merged : Entries → List (Io Entries) → History → Entries → History → Type 0
  Merged m readers h result h' =
      (news : List Entries) × Reads readers news h h' × (result ≡ merge_all m news)

  merge_from-Merged :
      (m result : Entries) (readers : List (Io Entries)) (h h' : History)
      → merge_from mapper m readers os h ≡ (ok result, h')
      → Merged m readers h result h'
  unfolding merge_from pure lift ◌>>=◌
  merge_from-Merged m result [] h h' e = ([], ground arith, ground arith)
  merge_from-Merged m result (r ∷ readers) h h' e = elim (Result-cases (r os h).0) [
    | inr (f, bad) ↦ absurd (ground arith)
    | inl (entries, e₁) ↦ elim (Result-cases (mapper.to_internal entries)) [
      | inr (f, bad) ↦ absurd (ground arith)
      | inl (new, e₂) ↦
          let (news, reads, eq) =
            merge_from-Merged (mapper.update_merge m new) result readers (r os h).1 h'
              (ground arith) in
          (new ∷ news, (entries, e₁, e₂, reads), eq)
    ]
  ]

  -- `merge` succeeds exactly if every reader, run after those before it, succeeds and its data have an
  -- internal form; and then the result is the merge of these into nothing, one after another in the
  -- order of the readers.
  pub merge-Reads_iff :
      (readers : List (Io Entries)) (result : Entries) (h h' : History)
      → (merge mapper readers os h ≡ (ok result, h'))
        ↔ ((news : List Entries) × Reads readers news h h' × (result ≡ merge_all end news))
  unfolding merge
  merge-Reads_iff readers result h h' = (
    merge_from-Merged end result readers h h',
    λ (news, reads, eq).
        merge_from-of_Reads end readers news h h' reads ∙ ap (λ m. (ok m, h')) (sym eq),
  )
