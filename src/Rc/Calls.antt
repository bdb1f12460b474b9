-- ===== src/Rc/Calls.antt =====
-- pkg/cli/rc/rc.go: the helpers, which drop the errors of their calls.
use k3os.Base.{ℕ, List, [], ◌∷◌, ◌++◌, Option, none, some, if◌then◌else◌}
use k3os.Base.Text.{Text, text, ◌=ᵗ◌, trim_space}
use k3os.Os.Call.{
  Result, ok, err, mount_flags, mknod, symlink, mkdir_all, read_file, write_file, read_dir, glob,
  run,
}
use k3os.Os.Io.{Io, pure, attempt, act_, ask_text, ask_names, ◌>>=◌, ◌>>◌}

-- The flags of a mount, each a bit of its own: a sum of different ones is their `|`.
abbrev pub nosuid : ℕ
nosuid = 2

abbrev pub nodev : ℕ
nodev = 4

abbrev pub noexec : ℕ
noexec = 8

abbrev pub rec : ℕ
rec = 0x4000

abbrev pub shared : ℕ
shared = 0x100000

abbrev pub relatime : ℕ
relatime = 0x200000

-- `mkdir`
unfoldable pub make_dir : Text → ℕ → Io (Unit {0})
make_dir path perm = act_ (mkdir_all path perm)

-- `mount`
unfoldable pub mount_at : Text → Text → Text → ℕ → Text → Io (Unit {0})
mount_at source target fstype flags options =
    make_dir target 0o755 >> act_ (mount_flags source target fstype flags options)

-- `mountSilent`
unfoldable pub mount_silent : Text → Text → Text → ℕ → Text → Io (Unit {0})
mount_silent source target fstype flags options =
    act_ (mount_flags source target fstype flags options)

-- `mkchar`; `unix.Mkdev` is a parameter.
unfoldable pub make_char : (ℕ → ℕ → ℕ) → Text → ℕ → ℕ → ℕ → Io (Unit {0})
make_char mkdev path mode major minor = act_ (mknod path mode (mkdev major minor))

-- `symlink`
unfoldable pub make_link : Text → Text → Io (Unit {0})
make_link old_name new_name = act_ (symlink old_name new_name)

-- `if cg[3] == "1" { list = append(list, cg[0]) }`, of records with four fields
abbrev pub enabled_cgroup : List Text → List Text
enabled_cgroup (name ∷ hierarchy ∷ count ∷ enabled ∷ []) =
    if enabled =ᵗ text "1" then name ∷ [] else []
enabled_cgroup _ = []

abbrev pub enabled_cgroups : List (List Text) → List Text
enabled_cgroups [] = []
enabled_cgroups (cg ∷ cgroups) = enabled_cgroup cg ++ enabled_cgroups cgroups

abbrev pub cgroups_of : (Text → Option (List (List Text))) → Result Text → List Text
cgroups_of read_all (err e) = []
cgroups_of read_all (ok contents) = elim (read_all contents) [
  | none ↦ []
  | some cgroups ↦ enabled_cgroups cgroups
]

-- `cgroupList`; the reader of `encoding/csv`, set to tabs and four fields, is a parameter.
unfoldable pub cgroup_list : (Text → Option (List (List Text))) → Io (List Text)
cgroup_list read_all = do
  contents ← attempt (ask_text (read_file (text "/proc/cgroups")))
  pure (cgroups_of read_all contents)

-- `write`
unfoldable pub write : Text → Text → Io (Unit {0})
write path value = act_ (write_file path value 0o600)

abbrev pub trimmed : Result Text → Text
trimmed (ok contents) = trim_space contents
trimmed (err e) = []

-- `read`
unfoldable pub read : Text → Io Text
read path = do contents ← attempt (ask_text (read_file path)); pure (trimmed contents)

abbrev pub names_or_none : Result (List Text) → List Text
names_or_none (ok names) = names
names_or_none (err e) = []

-- `readdir`
unfoldable pub read_names : Text → Io (List Text)
read_names path = do names ← attempt (ask_names (read_dir path)); pure (names_or_none names)

-- `glob`
unfoldable pub glob_names : Text → Io (List Text)
glob_names pattern_ = do names ← attempt (ask_names (glob pattern_)); pure (names_or_none names)

-- `modalias`
unfoldable pub modalias : Text → Io (Unit {0})
modalias path = do
  alias ← read path
  act_ (run (text "/sbin/modprobe" ∷ text "-abq" ∷ alias ∷ []) [])
