-- ===== src/Enterchroot/Start.antt =====
-- pkg/enterchroot/enter.go: the outer half, which finds the root and starts `enter-root`.
-- The goroutine that sets the loop device to detach itself makes its calls while the started process
-- runs, as far as it comes; after that, this process ends.
pub mod Detached
use Prim.Native.Nat.{bit_or}
use k3os.Base.Number.{ℤ, pos, negsuc}
use k3os.Base.{not, ℕ, ◌||◌, Bool, true, false, List, [], ◌∷◌, ◌++◌, any_of, ◌==◌, if◌then◌else◌}
use k3os.Base.Text.{Text, text, ◌=ᵗ◌, is_empty, fields}
use k3os.Os.Call.{
  open_file, close, failed, Result, ok, err, FileInfo, getenv, setenv, read_file, stat, attach,
  detach, loop_info, set_loop_flags, getpid, exec, run,
}
use k3os.Os.Io.{
  Io, pure, lift, attempt, defer, act, act_, ask_text, ask_info, ask_number, ask_int, when, ◌>>=◌,
  ◌>>◌,
}
use k3os.Command.{message, with_context}
use k3os.Enterchroot.Image.{FileRead, Image, image_at, not_found, read_failed, panicked, in_file}
use k3os.Enterchroot.Loop.{ensure_loop}

abbrev pub text_or_empty : Result Text → Text
text_or_empty (ok t) = t
text_or_empty (err e) = []

-- `os.Getenv`
unfoldable pub get_env : Text → Io Text
get_env name = do value ← attempt (ask_text (getenv name)); pure (text_or_empty value)

abbrev pub has_word : Text → Result Text → Bool
has_word word (ok bytes) = any_of (λ w. w =ᵗ word) (fields bytes)
has_word word (err e) = false

-- `isDebug`, with the value of `DebugCmdline`
unfoldable pub is_debug : Text → Io Bool
is_debug debug_cmdline = do
  value ← get_env (text "ENTER_DEBUG")
  if value =ᵗ text "true" || is_empty debug_cmdline then pure (value =ᵗ text "true") else do
    bytes ← attempt (ask_text (read_file (text "/proc/cmdline")))
    pure (has_word debug_cmdline bytes)

-- The root, and the offset of its image in it.
abbrev pub Located : Type 0
Located = Text × ℕ

abbrev pub found_image : Text → Image → Result Located
found_image self (image_at offset) = ok (self, offset)
found_image self not_found = err (failed (text "failed to find image in file"))
found_image self read_failed = err (failed (text "read"))
found_image self panicked = err (failed (text "index out of range"))

abbrev pub if_found : Text → Result FileInfo → Result FileInfo
if_found root (ok info) = ok info
if_found root (err e) = err (failed (text "failed to find " ++ (root ++ (text ": " ++ message e))))

abbrev pub if_attached : Result Text → Result Text
if_attached (ok dev) = ok dev
if_attached (err e) = err (failed (text "creating loopback device: " ++ message e))

abbrev pub is_there : Result FileInfo → Bool
is_there (ok info) = true
is_there (err e) = false

-- `info.Flags |= losetup.FlagsAutoClear`
unfoldable pub with_auto_clear : ℤ → ℤ
with_auto_clear (pos flags) = pos (bit_or flags 4)
with_auto_clear (negsuc n) = negsuc n

-- What the goroutine does after its three seconds, where an error ends it
unfoldable pub set_auto_clear : Text → Io (Unit {0})
set_auto_clear dev = do
  flags ← ask_int (loop_info dev)
  act (set_loop_flags dev (with_auto_clear flags))

-- How far the goroutine comes while the started process runs
pub data Elapsed : Type 0 where
  asleep info_read finished : Elapsed

unfoldable pub in_background : Text → Elapsed → Io (Unit {0})
in_background dev asleep = pure tt
in_background dev info_read = attempt (ask_int (loop_info dev)) >> pure tt
in_background dev finished = attempt (set_auto_clear dev) >> pure tt

abbrev pub was_replaced : Result Bool → Bool
was_replaced (ok b) = b
was_replaced (err e) = false

abbrev pub dropped : Result Bool → Result (Unit {0})
dropped (ok b) = ok tt
dropped (err e) = err e

-- The program's name and its own file; the reads of that file come as a list.
module _ (program self : Text) (reads : List FileRead) (elapsed : Elapsed) where
  -- `for _, suffix := range []string{…}`
  unfoldable pub beside : List Text → Io Located
  beside [] =
      act (open_file self) >> defer (act_ (close self)) (lift (found_image self (in_file reads)))
  beside (suffix ∷ suffixes) = do
    found ← attempt (ask_info (stat (program ++ suffix)))
    if is_there found then pure (program ++ suffix, 0) else beside suffixes

  -- `findRoot`
  unfoldable pub find_root : Io Located
  find_root = do
    root ← get_env (text "ENTER_ROOT")
    if is_empty root then beside (text ".root" ∷ text ".squashfs" ∷ []) else pure (root, 0)

  -- `append([]string{"enter-root"}, args[1:]...)`, of arguments that begin with the program's name
  abbrev pub enter_args : List Text → List Text
  enter_args [] = text "enter-root" ∷ []
  enter_args (a ∷ args) = text "enter-root" ∷ args

  -- Whether the process was replaced: an `exec` that succeeds is the last call.
  unfoldable pub become_enter_root : List Text → Io Bool
  become_enter_root args = do
    r ← attempt (act (exec (program ∷ enter_args args)))
    lift (with_context (text "failed to exec enter-root: ") r)
    pure true

  -- What follows the loop device: the first process becomes `enter-root`; another process starts it
  -- and waits, and `meanwhile` is what other goroutines do until it returns.
  unfoldable pub start_enter_root : List Text → Io (Unit {0}) → Io Bool
  start_enter_root args meanwhile = do
    pid ← ask_number getpid
    if pid == 1 then become_enter_root args else do
      r ← attempt (act (run (program ∷ enter_args args) []))
      meanwhile
      lift r
      pure false

  unfoldable pub start_on : Text → List Text → Io (Unit {0})
  start_on dev args = do
    act_ (setenv (text "ENTER_DEVICE") dev)
    r ← attempt (start_enter_root args (in_background dev elapsed))
    when (not (was_replaced r)) (act_ (detach dev))
    lift (dropped r)

  unfoldable pub start_at : Located → FileInfo → List Text → Io (Unit {0})
  start_at (root, offset) info args =
      if info.is_dir then (start_enter_root args (pure tt) >> pure tt) else do
        attached ← attempt (ask_text (attach root offset))
        dev ← lift (if_attached attached)
        start_on dev args

  -- `Mount`; `debug_level` says whether the log level is already that of debugging.
  unfoldable pub mount_root : Text → Bool → Text → List Text → Io (Unit {0})
  mount_root debug_cmdline debug_level data_dir args = do
    ensure_loop
    debug ← is_debug debug_cmdline
    when (if debug then true else debug_level) (act_ (setenv (text "ENTER_DEBUG") (text "true")))
    located ← find_root
    act_ (setenv (text "ENTER_DATA") data_dir)
    act_ (setenv (text "ENTER_ROOT") located.0)
    looked ← attempt (ask_info (stat located.0))
    info ← lift (if_found located.0 looked)
    start_at located info args
