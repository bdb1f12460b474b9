-- ===== src/Enterchroot/Root.antt =====
-- pkg/enterchroot/enter.go: the inner half, which runs as `enter-root`.
pub mod Growing
pub mod Switching
pub mod Order
use k3os.Base.{ℕ, Bool, not, List, [], ◌∷◌, ◌++◌, if◌then◌else◌}
use k3os.Base.Text.{Text, text, contains, is_empty}
use k3os.Base.FilePath.{join_path}
use k3os.Os.Call.{
  not_exist, failed, Result, ok, err, FileInfo, mounted, mkdir_all, mount, read_file, run, chdir,
  lstat, symlink, pivot_root, getenv, setrlimit, chroot, stat, unsetenv, exec,
}
use k3os.Os.Io.{
  Io, pure, raise, attempt, act, act_, ask_text, ask_info, ask_flag, for_each, when, ◌>>=◌, ◌>>◌,
}
use k3os.Command.{message}
use k3os.Enterchroot.Start.{get_env, text_or_empty}

abbrev pub in_context {ℓ} : {A : Type ℓ} → Text → Result A → Result A
in_context context (ok a) = ok a
in_context context (err e) = err (failed (context ++ message e))

-- `errors.Wrap`: what the call returned, its error in a context
unfoldable pub wrapped {ℓ} : {A : Type ℓ} → Text → Io A → Io A
wrapped context m os h = let (r, h') = m os h in (in_context context r, h')

-- `inProcFS`
unfoldable pub in_proc_fs : Io Bool
in_proc_fs = do
  bytes ← attempt (ask_text (read_file (text "/proc/filesystems")))
  pure (contains (text_or_empty bytes) (text "squashfs"))

-- `checkSquashfs`
unfoldable pub check_squashfs : Io (Unit {0})
check_squashfs = do
  loaded ← in_proc_fs
  when (not loaded) (act_ (run (text "modprobe" ∷ text "squashfs" ∷ []) []))
  supported ← in_proc_fs
  if supported then pure tt else raise (failed (text "This kernel does not support squashfs"))

abbrev pub squash_context : Result (Unit {0}) → Text
squash_context (ok u) = text "mounting squashfs: "
squash_context (err e) = message e ++ text ": mounting squashfs: "

unfoldable pub mount_usr : Text → Text → Text → Io (Unit {0})
mount_usr root device usr =
    if is_empty device
    then wrapped (text "failed to bind mount: ") (act (mount root usr (text "none") (text "bind")))
    else (do
      squash ← attempt check_squashfs
      wrapped (squash_context squash) (act (mount device usr (text "squashfs") (text "ro"))))

abbrev pub link_if_missing : Result FileInfo → Text → Io (Unit {0})
link_if_missing (ok info) p = pure tt
link_if_missing (err (failed e)) p = pure tt
link_if_missing (err (not_exist e)) p =
    wrapped (text "failed to symlink: ") (act (symlink (join_path (text "usr" ∷ p ∷ [])) p))

unfoldable pub link_usr : Text → Io (Unit {0})
link_usr p = do found ← attempt (ask_info (lstat p)); link_if_missing found p

abbrev pub symlinks : List Text
symlinks = text "lib" ∷ text "bin" ∷ text "sbin" ∷ []

-- `run`, with the arguments that `/usr/init` is given
unfoldable pub run_root : Text → List Text → Io (Unit {0})
run_root base args = do
  is_mounted ← wrapped (text "checking mounted: ") (ask_flag (mounted base))
  when (not is_mounted) (do
    wrapped (text "mkdir: ") (act (mkdir_all base 0o755))
    wrapped (text "remounting data: ") (act (mount base base (text "none") (text "rbind"))))
  root ← get_env (text "ENTER_ROOT")
  device ← get_env (text "ENTER_DEVICE")
  let usr = join_path (base ∷ text "usr" ∷ [])
  let dot_root = join_path (base ∷ text ".base" ∷ [])
  wrapped (text "failed to make dir: ") (act (mkdir_all usr 0o755))
  wrapped (text "failed to make dir: ") (act (mkdir_all dot_root 0o755))
  mount_usr root device usr
  act (chdir base)
  for_each symlinks link_usr
  wrapped (text "pivot_root failed: ") (act (pivot_root (text ".") (text ".base")))
  wrapped (text "making . private: ") (act (mount [] (text ".") (text "none") (text "rprivate")))
  act (chroot (text "/"))
  act (chdir (text "/"))
  wrapped (text "failed to find /usr/init: ") (ask_info (stat (text "/usr/init")))
  act_ (unsetenv (text "ENTER_ROOT"))
  act_ (unsetenv (text "ENTER_DATA"))
  act_ (unsetenv (text "ENTER_DEVICE"))
  act (exec (text "/usr/init" ∷ args))

-- `setResourceLimit`, whose error is only logged
unfoldable pub set_resource_limit : ℕ → ℕ → ℕ → Io (Unit {0})
set_resource_limit resource cur max = act_ (setrlimit resource cur max)

-- `RLIMIT_NPROC`, `RLIMIT_NOFILE` and `RLIM_INFINITY` on Linux
abbrev pub rlimit_nproc : ℕ
rlimit_nproc = 6

abbrev pub rlimit_nofile : ℕ
rlimit_nofile = 7

abbrev pub rlim_infinity : ℕ
rlim_infinity = 0xffffffffffffffff

-- `Enter`, of the arguments of the program; an error ends the process.
unfoldable pub enter : List Text → Io (Unit {0})
enter args = do
  act_ (getenv (text "ENTER_DEBUG"))
  set_resource_limit rlimit_nofile 1048576 1048576
  set_resource_limit rlimit_nproc rlim_infinity rlim_infinity
  base ← get_env (text "ENTER_DATA")
  run_root base args
