-- ===== src/Transferroot/Kept.antt =====
-- pkg/transferroot/transferroot.go: what a move that fails has left in place.
use k3os.Base.{◌≡◌, ◌⊎◌, refl, []}
use k3os.Base.Text.{Text, text}
use k3os.Base.Number.{ℤ}
use k3os.Os.Call.{
  Call, remove_all, chroot, pivot_root, mount, mount_flags, lstat, read_dir, Error, Result, err, Os,
  History,
}
use k3os.Os.Io.{◌>>=◌}
use k3os.Os.Adds.{Since, Adds, adds_rules}
use k3os.Transferroot.{
  Walk, Visit, Node, Kind, directory, regular, symbolic_link, device, named_pipe, socket,
  other_kind, finish_file, copy_metadata, make_directory, visit_directory, move_as, move_node,
  visit_node, fill_root, copy_fs,
}

-- `filepath.Walk` makes the calls of its function, `Lstat` and the reading of directories.
pub record IsWalk (walk : Walk) : Type 1 where
  pub calls :
      (P : Call → Type 0) (root : Text) (visit : Visit)
      → ((path : Text) → P (lstat path))
      → ((path : Text) → P (read_dir path))
      → ((path : Text) (info : Result Node) → Adds P (visit path info))
      → Adds P (walk root visit)

-- Neither the removal of a tree, nor a mount that is moved, nor a new root of the process; a mount has no
-- flags, and no options but those that make it writable.
abbrev pub IsKept : Call → Type 0
IsKept (remove_all path) = ⊥
IsKept (chroot path) = ⊥
IsKept (pivot_root new old) = ⊥
IsKept (mount_flags source target type flags options) = flags ≡ 0
IsKept (mount source target type options) = (options ≡ []) ⊎ (options ≡ text "rw,remount")
IsKept _ = Unit

copy_metadata-Adds : (node : Node) (path : Text) → Adds IsKept (copy_metadata node path)
unfolding copy_metadata
copy_metadata-Adds node path = search (adds_rules, tt) depth 9

module _ (root_dev : ℤ) (new_root : Text) where
  visit_directory-Adds :
      (path : Text) (info : Result Node) → Adds IsKept (visit_directory root_dev new_root path info)
  unfolding visit_directory make_directory
  visit_directory-Adds path info = search (adds_rules, tt, copy_metadata-Adds) depth 12

  move_as-Adds :
      (kind : Kind) (path dest : Text) (node : Node)
      → Adds IsKept (move_as root_dev new_root kind path dest node)
  unfolding move_as finish_file
  move_as-Adds directory path dest node = search adds_rules
  move_as-Adds regular path dest node = search (adds_rules, tt, copy_metadata-Adds) depth 20
  move_as-Adds symbolic_link path dest node = search (adds_rules, tt, copy_metadata-Adds) depth 12
  move_as-Adds device path dest node = search (adds_rules, tt, copy_metadata-Adds) depth 12
  move_as-Adds named_pipe path dest node = search (adds_rules, tt, copy_metadata-Adds) depth 12
  move_as-Adds socket path dest node = search adds_rules
  move_as-Adds other_kind path dest node = search adds_rules

  visit_node-Adds :
      (path : Text) (info : Result Node) → Adds IsKept (visit_node root_dev new_root path info)
  unfolding visit_node move_node
  visit_node-Adds path info = search (adds_rules, move_as-Adds) depth 9

module _ (walk : Walk) (is_walk : IsWalk walk) (new_root : Text) where
  directories-Adds :
      (root_dev : ℤ) → Adds IsKept (walk (text "/") (visit_directory root_dev new_root))
  directories-Adds root_dev =
      is_walk.calls IsKept (text "/") (visit_directory root_dev new_root) (λ path. tt) (λ path. tt)
        (visit_directory-Adds root_dev new_root)

  nodes-Adds : (root_dev : ℤ) → Adds IsKept (walk (text "/") (visit_node root_dev new_root))
  nodes-Adds root_dev =
      is_walk.calls IsKept (text "/") (visit_node root_dev new_root) (λ path. tt) (λ path. tt)
        (visit_node-Adds root_dev new_root)

  fill_root-Adds : Adds IsKept (fill_root walk new_root)
  unfolding fill_root
  fill_root-Adds = search (adds_rules, tt, directories-Adds, nodes-Adds) depth 12

  -- If the new root cannot be filled, for whatever reason, then the move returns that error, and up to
  -- there it has removed no tree, moved no mount and changed no root: the system still runs on the
  -- root that it had.
  pub copy_fs-IsKept :
      (os : Os) (h : History) (e : Error)
      → (fill_root walk new_root os h).0 ≡ err e
      → ((copy_fs walk new_root os h).0 ≡ err e) × Since IsKept h (copy_fs walk new_root os h).1
  unfolding copy_fs ◌>>=◌
  copy_fs-IsKept os h e failed = rw failed (refl, fill_root-Adds.at os h)
