-- ===== src/Transferroot.antt =====
-- pkg/transferroot/transferroot.go: the move of the root file system into a new one. `filepath.Walk`
-- is a parameter. Messages to the log are left out; `log.Fatalf` is an error, which ends the process.
pub mod Kept
pub mod Moved
use k3os.Base.{ℕ, ◌==◌, List, [], ◌∷◌, ◌++◌, Bool, true, false, not, ◌&&◌, ◌||◌, if◌then◌else◌}
use k3os.Base.Text.{Text, text, ◌=ᵗ◌}
use k3os.Base.Number.{ℤ, pos, negsuc}
use k3os.Base.FilePath.{join_path}
use k3os.Os.Call.{
  Error, failed, Result, ok, err, stat, statfs, mount_flags, mkdir, mkdir_all, chmod, lchown,
  set_times, open_write, open_file, copy_open, close, remove, remove_all, readlink, symlink, mknod,
  mkfifo, chdir, chroot, unsetenv, exec_env,
}
use k3os.Os.Io.{Io, pure, raise, attempt, lift, act, act_, ask_text, ask_int, when, ◌>>=◌, ◌>>◌}
use k3os.Enterchroot.Start.{get_env}
use k3os.Enterchroot.Root.{wrapped}

-- The types of files that the switch over `info.Mode()` tells apart
pub data Kind : Type 0 where
  directory regular symbolic_link device named_pipe socket other_kind : Kind

-- What is read of an `os.FileInfo` and its `Stat_t`; `mode` is the value of `info.Mode()`.
pub record Node : Type 0 where
  pub kind : Kind
  pub mode : ℕ
  pub uid : ℤ
  pub gid : ℤ
  pub access_time : ℕ
  pub modification_time : ℕ
  pub dev : ℤ
  pub rdev : ℕ

-- What a `WalkFunc` returns when it does not fail: nil, or `filepath.SkipDir`
pub data Next : Type 0 where
  go_on skip_dir : Next

abbrev pub Visit : Type 0
Visit = Text → Result Node → Io Next

-- `filepath.Walk`
abbrev pub Walk : Type 0
Walk = Text → Visit → Io (Unit {0})

infix 50 ◌==ℤ◌
abbrev pub ◌==ℤ◌ : ℤ → ℤ → Bool
pos m ==ℤ pos n = m == n
pos m ==ℤ negsuc n = false
negsuc m ==ℤ pos n = false
negsuc m ==ℤ negsuc n = m == n

abbrev pub is_directory : Kind → Bool
is_directory directory = true
is_directory _ = false

abbrev pub is_link : Kind → Bool
is_link symbolic_link = true
is_link _ = false

-- `copyMetadata`
unfoldable pub copy_metadata : Node → Text → Io (Unit {0})
copy_metadata node path = do
  act (lchown path node.uid node.gid)
  act (set_times path node.access_time node.modification_time)
  when (not (is_link node.kind)) (act (chmod path node.mode))

-- What follows the copy of a regular file's contents
unfoldable pub finish_file : Text → Text → Node → Io Next
finish_file path dest node = do
  act (close path)
  act (close dest)
  act_ (remove path)
  copy_metadata node dest
  pure go_on

module _ (root_dev : ℤ) (new_root : Text) where
  unfoldable pub make_directory : Text → Node → Io Next
  make_directory path node = if not (is_directory node.kind) then pure go_on else do
    let dest = join_path (new_root ∷ path ∷ [])
    if path =ᵗ text "/" then act (chmod new_root node.mode) else act (mkdir dest node.mode)
    copy_metadata node dest
    pure (if root_dev ==ℤ node.dev then go_on else skip_dir)

  -- The function of the first walk
  unfoldable pub visit_directory : Visit
  visit_directory path info = lift info >>= make_directory path

  -- The cases of the switch
  unfoldable pub move_as : Kind → Text → Text → Node → Io Next
  move_as directory path dest node = pure go_on
  move_as regular path dest node = do
    act (open_write dest node.mode)
    act (open_file path)
    act (copy_open path dest)
    finish_file path dest node
  move_as symbolic_link path dest node = do
    link ← ask_text (readlink path)
    act (symlink link dest)
    copy_metadata node dest
    pure go_on
  move_as device path dest node = do
    act (mknod dest node.mode node.rdev)
    copy_metadata node dest
    pure go_on
  move_as named_pipe path dest node = do
    act (mkfifo dest node.mode)
    copy_metadata node dest
    pure go_on
  move_as socket path dest node = raise (failed (text "Unsupported socket on rootfs"))
  move_as other_kind path dest node = raise (failed (text "Unknown file type"))

  unfoldable pub move_node : Text → Node → Io Next
  move_node path node =
      if not (root_dev ==ℤ node.dev) && is_directory node.kind
      then pure skip_dir
      else move_as node.kind path (join_path (new_root ∷ path ∷ [])) node

  -- The function of the second walk
  unfoldable pub visit_node : Visit
  visit_node path info = lift info >>= move_node path

  unfoldable pub delete_node : Text → Node → Io Next
  delete_node path node =
      if path =ᵗ text "/"
      then pure go_on
      else if not (is_directory node.kind)
      then (act_ (remove path) >> pure go_on)
      else if not (root_dev ==ℤ node.dev)
      then pure skip_dir
      else (act_ (remove_all path) >> pure skip_dir)

  -- The function of the third walk
  unfoldable pub visit_rest : Visit
  visit_rest path info = lift info >>= delete_node path

-- `ramfsMagic` and `tmpfsMagic`
abbrev pub in_memory : ℤ → Bool
in_memory type = type ==ℤ negsuc 2054924041 || type ==ℤ pos 0x01021994

module _ (walk : Walk) where
  -- The part of `copyFS` that fills the new root
  unfoldable pub fill_root : Text → Io ℤ
  fill_root new_root = do
    root_dev ← ask_int (stat (text "/"))
    act (mount_flags (text "rootfs") new_root (text "tmpfs") 0 [])
    walk (text "/") (visit_directory root_dev new_root)
    walk (text "/") (visit_node root_dev new_root)
    act (chdir new_root)
    pure root_dev

  -- The part that empties the old root and switches; 8192 is `MS_MOVE`.
  unfoldable pub switch_root : Text → ℤ → Io (Unit {0})
  switch_root new_root root_dev = do
    walk (text "/") (visit_rest root_dev new_root)
    act (mount_flags (text ".") (text "/") [] 8192 [])
    act (chroot (text "."))
    act (chdir (text "/"))

  -- `copyFS`
  unfoldable pub copy_fs : Text → Io (Unit {0})
  copy_fs new_root = fill_root new_root >>= switch_root new_root

  -- An `exec` that succeeds is the last call of the process; then the result is true.
  unfoldable pub relocate_root : Io Bool
  relocate_root = do
    wrapped (text "Failed to mkdir /mnt: ") (act (mkdir_all (text "/mnt") 0o755))
    wrapped (text "Copy root failed: ") (copy_fs (text "/mnt"))
    wrapped (text "Cannot exec /sbin/init: ")
        (act (exec_env (text "/init" ∷ text "/init" ∷ []) (text "K3OS_RELOCATED=true" ∷ [])))
    pure true

  -- `Relocate`
  unfoldable pub relocate : Io Bool
  relocate = do
    relocated ← get_env (text "K3OS_RELOCATED")
    if relocated =ᵗ text "true"
        then (act_ (unsetenv (text "K3OS_RELOCATED")) >> pure false)
        else (do
          type ← wrapped (text "Cannot statfs cwd: ") (ask_int (statfs (text ".")))
          if in_memory type then relocate_root else pure false)
