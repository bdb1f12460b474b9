-- ===== src/Os/Call.antt =====
-- The calls that the program makes: of Go's `os`, `io/ioutil` and `os/exec`, of
-- `golang.org/x/sys/unix`, and of the vendored `mount`, `copy` and `modprobe` packages.
use Prim.Native.Nat.{ℕ}
use mathlib.Core.Path.{◌≡◌, refl}
use mathlib.Core.Logic.{◌⊎◌, inl, inr}
use mathlib.Core.Bool.{Bool}
use mathlib.Core.Option.{Option}
use mathlib.Core.List.{List}
use k3os.Base.Text.{Text}
use k3os.Base.Number.{ℤ}

-- An error value. `os.IsNotExist` tells the first kind from the second.
pub data Error : Type 0 where
  not_exist : Text → Error
  failed : Text → Error

-- The fields of `os.FileInfo` that the program reads. `mode` is the permission bits.
pub record FileInfo : Type 0 where
  pub name : Text
  pub is_dir : Bool
  pub mode : ℕ

pub data Call : Type 0 where
  -- questions
  read_file stat lstat readlink read_dir open_file : Text → Call
  temp_file temp_dir : Text → Text → Call
  http_get getenv mounted statfs : Text → Call
  attach : Text → ℕ → Call
  getpid : Call
  hostname getuid : Call
  -- actions
  write_file : Text → Text → ℕ → Call
  write_open : Text → Text → Call
  open_write mkfifo : Text → ℕ → Call
  copy_open : Text → Text → Call
  lchown : Text → ℤ → ℤ → Call
  set_times : Text → ℕ → ℕ → Call
  setrlimit : ℕ → ℕ → ℕ → Call
  close : Text → Call
  create : Text → Call
  mkdir mkdir_all chmod : Text → ℕ → Call
  chown : Text → ℤ → ℤ → Call
  remove remove_all : Text → Call
  rename symlink copy : Text → Text → Call
  mount : Text → Text → Text → Text → Call
  sethostname : Text → Call
  mknod : Text → ℕ → ℕ → Call
  run : List Text → Text → Call
  run_env : List Text → List Text → Call
  modprobe : Text → Text → Call
  flock unflock look_path chroot chdir : Text → Call
  sync : Call
  setenv : Text → Text → Call
  unsetenv : Text → Call
  exec : List Text → Call
  exec_env : List Text → List Text → Call
  pivot_root : Text → Text → Call
  mount_flags : Text → Text → Text → ℕ → Text → Call
  detach : Text → Call
  loop_info : Text → Call
  set_loop_flags : Text → ℤ → Call
  glob : Text → Call

-- What was called, the latest call first.
abbrev pub History : Type 0
History = List Call

pub data Result {ℓ} (A : Type ℓ) : Type ℓ where
  ok : A → Result A
  err : Error → Result A

-- A response of `http.Get`: its status code, and what reading its body gives.
pub record HttpReply : Type 0 where
  pub status : ℕ
  pub body : Result Text

pub Result-cases {ℓ} :
    {A : Type ℓ} (r : Result A) → ((a : A) × (r ≡ ok a)) ⊎ ((e : Error) × (r ≡ err e))
Result-cases (ok a) = inl (a, refl)
Result-cases (err e) = inr (e, refl)

-- How the system answers a call, by the type of the answer.
pub record Os : Type 0 where
  pub act : History → Call → Option Error
  pub text_of : History → Call → Result Text
  pub names_of : History → Call → Result (List Text)
  pub info_of : History → Call → Result FileInfo
  pub number_of : History → Call → ℕ
  pub int_of : History → Call → Result ℤ
  pub flag_of : History → Call → Result Bool
  pub http_of : History → Call → Result HttpReply
