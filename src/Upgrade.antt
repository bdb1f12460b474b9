-- ===== src/Upgrade.antt =====
-- pkg/cli/upgrade/upgrade.go: the `upgrade` sub-command.
-- An error of `run_upgrade` is `logrus.Fatal`, which ends the process; its deferred calls do not
-- run then, and the system drops the lock with the process.
pub mod Quiet
pub mod Safety
pub mod Order
pub mod Copies
pub mod Idle
use k3os.Base.{
  Bool, true, false, not, ◌&&◌, ◌||◌, Option, none, some, List, [], ◌∷◌, ◌++◌, if◌then◌else◌,
}
use k3os.Base.Text.{Text, text, ◌=ᵗ◌}
use k3os.Base.FilePath.{join_path, clean}
use k3os.Os.Call.{
  Error, failed, Result, ok, err, FileInfo, stat, open_file, flock, unflock, sync, look_path,
  chroot, chdir, run, close,
}
use k3os.Os.Io.{Io, pure, raise, attempt, act, act_, ask_info, when, ◌>>=◌, ◌>>◌}
use k3os.System.Roots.{root_path}
use k3os.System.Component.{copy_component}

-- The flags of the sub-command.
pub record Flags : Type 0 where
  pub upgrade_k3os : Bool
  pub upgrade_k3s : Bool
  pub upgrade_kernel : Bool
  pub upgrade_root_fs : Bool
  pub do_remount : Bool
  pub do_sync : Bool
  pub do_reboot : Bool
  pub source_dir : Text
  pub destination_dir : Text
  pub lock_file : Text

-- `Before`: the flags that `Run` is called with; `none` exits with status 1.
unfoldable pub before : Flags → Option Flags
unfolding ◌=ᵗ◌
before f =
    if f.destination_dir =ᵗ f.source_dir
    then none
    else let g =
        if f.upgrade_root_fs then record f { upgrade_k3os = true; upgrade_k3s = true } else f in
      if not g.upgrade_k3os && not g.upgrade_k3s && not g.upgrade_kernel then none else some g

-- `validateSystemRoot`
unfoldable pub validate_system_root : Text → Io (Unit {0})
unfolding ◌>>=◌ ask_info raise pure
validate_system_root root = do
  info ← ask_info (stat root)
  if info.is_dir
      then pure tt
      else raise (failed (text "stat " ++ (root ++ text ": not a directory")))

-- `atLeastOneComponentCopied` and `doRemount`
pub record Progress : Type 0 where
  pub copied : Bool
  pub remount : Bool

-- `if copied, err := …; err != nil { … } else if copied { … }`
unfoldable pub note : Progress → Result Bool → Progress
note s (err e) = s
note s (ok false) = s
note s (ok true) = record { copied = true; remount = false }

unfoldable pub upgrade_one : Flags → Bool → Text → Progress → Io Progress
unfolding note attempt ◌>>=◌ pure
upgrade_one f wanted key s =
    if wanted
    then (do
      r ← attempt (copy_component f.source_dir f.destination_dir s.remount key)
      pure (note s r))
    else pure s

-- Where `nsenter` is not found, the command is looked up under the destination's root.
unfoldable pub unless_found : Flags → Result (Unit {0}) → Io (Unit {0})
unfolding pure ◌=ᵗ◌ root_path act ◌>>=◌
unless_found f (ok _) = pure tt
unless_found f (err _) =
    if f.destination_dir =ᵗ root_path []
    then pure tt
    else (act (chroot (clean (join_path (f.destination_dir ∷ text ".." ∷ text ".." ∷ []))))
        >> act (chdir (text "/")))

unfoldable pub enter_destination : Flags → Io (Unit {0})
unfolding attempt ◌>>=◌ unless_found act
enter_destination f = do found ← attempt (act (look_path (text "nsenter"))); unless_found f found

abbrev pub reboot_command : List Text
reboot_command =
    text "nsenter"
    ∷ text "-m"
    ∷ text "-u"
    ∷ text "-i"
    ∷ text "-n"
    ∷ text "-p"
    ∷ text "-t"
    ∷ text "1"
    ∷ text "reboot"
    ∷ []

-- What follows the copies: `unix.Sync()` and the reboot.
unfoldable pub finish : Flags → Progress → Io (Unit {0})
unfolding enter_destination when ◌>>=◌
finish f s = do
  when (s.copied && f.do_sync) (act_ sync)
  when (s.copied && f.do_reboot) (do enter_destination f; act (run reboot_command []))

-- The copies of the components asked for, in turn.
unfoldable pub upgrade_all : Flags → Io Progress
unfolding upgrade_one
upgrade_all f = do
  s₁ ←
      upgrade_one f f.upgrade_k3os (text "k3os") (record { copied = false; remount = f.do_remount })
  s₂ ← upgrade_one f f.upgrade_k3s (text "k3s") s₁
  upgrade_one f f.upgrade_kernel (text "kernel") s₂

-- The first part of `Run`: both roots are directories, and the lock file is open.
unfoldable pub open_lock : Flags → Io (Unit {0})
unfolding validate_system_root
open_lock f = do
  validate_system_root f.source_dir
  validate_system_root f.destination_dir
  act (open_file f.lock_file)

-- The part of `Run` that holds the lock.
unfoldable pub locked_part : Flags → Io (Unit {0})
unfolding upgrade_all finish act_
locked_part f = do
  s ← upgrade_all f
  finish f s
  act_ (unflock f.lock_file)
  act_ (close f.lock_file)

-- `Run`
unfoldable pub run_upgrade : Flags → Io (Unit {0})
unfolding ◌>>=◌ act
run_upgrade f = do open_lock f; act (flock f.lock_file); locked_part f
