-- ===== src/Transferroot/Moved.antt =====
-- pkg/transferroot/transferroot.go: when a file leaves the old root.
use k3os.Base.{
  ◌≡◌, ◌⊎◌, inl, inr, Option-cases, none, ◌∷◌, [], Bool, true, false, if◌then◌else◌, not, ◌&&◌,
}
use k3os.Base.Text.{Text}
use k3os.Base.FilePath.{join_path}
use k3os.Base.Number.{ℤ}
use k3os.Os.Call.{Call, remove, remove_all, open_write, open_file, copy_open, ok, Os, History}
use k3os.Os.Io.{Io, pure, lift, act, ◌>>=◌, ◌>>◌}
use k3os.Os.Adds.{Since, Since-refl, Since-trans, Since-call, Adds, adds_rules}
use k3os.Transferroot.{
  finish_file, Node, Next, Kind, directory, regular, symbolic_link, device, named_pipe, socket,
  other_kind, skip_dir, copy_metadata, move_as, move_node, visit_node, is_directory, ◌==ℤ◌,
}

-- A call that removes nothing
abbrev pub RemovesNothing : Call → Type 0
RemovesNothing (remove path) = ⊥
RemovesNothing (remove_all path) = ⊥
RemovesNothing _ = Unit

copy_metadata-Adds : (node : Node) (path : Text) → Adds RemovesNothing (copy_metadata node path)
unfolding copy_metadata
copy_metadata-Adds node path = search (adds_rules, tt) depth 9

module _ (os : Os) where
  -- From `start`, nothing was removed unless `Copied` holds.
  abbrev Guarded {ℓ} : {A : Type ℓ} → Type 0 → History → Io A → History → Type 0
  Guarded Copied start m h = Since RemovesNothing start (m os h).1 ⊎ Copied

  act-Guarded {ℓ} :
      {A : Type ℓ} (Copied : Type 0) (start h : History) (c : Call) (rest : Io A)
      → RemovesNothing c
      → Since RemovesNothing start h
      → ((os.act h c ≡ none) → Guarded Copied start rest (c ∷ h))
      → Guarded Copied start (act c >> rest) h
  unfolding act ◌>>=◌
  act-Guarded Copied start h c rest kept since next = elim (Option-cases (os.act h c)) [
    | inl e ↦ rw e (next e)
    | inr (error, e) ↦
        rw e (inl (Since-trans RemovesNothing start h _ since (Since-call RemovesNothing c h kept)))
  ]

  adds-Guarded {ℓ} :
      {A : Type ℓ} (Copied : Type 0) (h : History) (m : Io A)
      → Adds RemovesNothing m
      → Guarded Copied h m h
  adds-Guarded Copied h m k = inl (k.at os h)

module _ (root_dev : ℤ) (new_root path dest : Text) (node : Node) (os : Os) (h : History) where
  -- The contents were copied, after both files were opened.
  abbrev pub Copied : Type 0
  Copied = os.act (open_file path ∷ open_write dest node.mode ∷ h) (copy_open path dest) ≡ none

  abbrev moved : Kind → Io Next
  moved kind = move_as root_dev new_root kind path dest node

  regular-Guarded : Guarded os Copied h (moved regular) h
  unfolding move_as
  regular-Guarded =
      let finish = finish_file path dest node in
      let copy_it = act (copy_open path dest) >> finish in
      let opened = act (open_file path) >> copy_it in
      let first = Since-call RemovesNothing (open_write dest node.mode) h tt in
      let second = Since-call RemovesNothing (open_file path) (open_write dest node.mode ∷ h) tt in
      act-Guarded os Copied h h (open_write dest node.mode) opened tt (Since-refl RemovesNothing h)
        λ e₁.
          act-Guarded os Copied h (open_write dest node.mode ∷ h) (open_file path) copy_it tt first
            λ e₂.
              act-Guarded os Copied h (open_file path ∷ open_write dest node.mode ∷ h)
                (copy_open path dest) finish tt (Since-trans RemovesNothing h _ _ first second)
                λ e₃. inr e₃

  move_as-Guarded : (kind : Kind) → Guarded os Copied h (moved kind) h
  unfolding move_as
  move_as-Guarded directory = adds-Guarded os Copied h (moved directory) (search adds_rules)
  move_as-Guarded regular = regular-Guarded
  move_as-Guarded symbolic_link =
      adds-Guarded os Copied h (moved symbolic_link)
        (search (adds_rules, tt, copy_metadata-Adds) depth 12)
  move_as-Guarded device =
      adds-Guarded os Copied h (moved device) (search (adds_rules, tt, copy_metadata-Adds) depth 12)
  move_as-Guarded named_pipe =
      adds-Guarded os Copied h (moved named_pipe)
        (search (adds_rules, tt, copy_metadata-Adds) depth 12)
  move_as-Guarded socket = adds-Guarded os Copied h (moved socket) (search adds_rules)
  move_as-Guarded other_kind = adds-Guarded os Copied h (moved other_kind) (search adds_rules)

  skipped-Guarded :
      (b : Bool) → Guarded os Copied h (if b then pure skip_dir else moved node.kind) h
  skipped-Guarded true = adds-Guarded os Copied h (pure skip_dir) (search adds_rules)
  skipped-Guarded false = move_as-Guarded node.kind

-- At each node, the second walk removes nothing, unless the contents of that file were first copied
-- to its place in the new root without an error.
pub visit_node-Copied :
    (root_dev : ℤ) (new_root path : Text) (node : Node) (os : Os) (h : History)
    → Since RemovesNothing h (visit_node root_dev new_root path (ok node) os h).1
      ⊎ Copied root_dev new_root path (join_path (new_root ∷ path ∷ [])) node os h
unfolding visit_node move_node lift ◌>>=◌
visit_node-Copied root_dev new_root path node os h =
    skipped-Guarded root_dev new_root path (join_path (new_root ∷ path ∷ [])) node os h
      (not (root_dev ==ℤ node.dev) && is_directory node.kind)
