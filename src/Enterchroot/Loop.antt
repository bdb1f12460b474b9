-- ===== src/Enterchroot/Loop.antt =====
-- pkg/enterchroot/ensureloop.go: the devices for a loop mount.
use Prim.Native.Nat.{bit_and, bit_or}
use k3os.Base.{
  ℕ, zero, suc, ◌+◌, ◌*◌, ◌^◌, Bool, false, List, [], ◌∷◌, ◌++◌, ltb, length, if◌then◌else◌,
}
use k3os.Base.Text.{Text, text}
use k3os.Base.Number.{itoa}
use k3os.Os.Call.{Result, ok, err, FileInfo, mounted, mkdir_all, mount, read_dir, stat, mknod, run}
use k3os.Os.Io.{Io, pure, lift, attempt, act, act_, ask_flag, ask_names, ask_info, ◌>>=◌, ◌>>◌}
use k3os.Command.{with_context}

abbrev pub is_set : Result Bool → Bool
is_set (ok b) = b
is_set (err e) = false

-- `mountProc`
unfoldable pub mount_proc : Io (Unit {0})
mount_proc = do
  found ← attempt (ask_flag (mounted (text "/proc")))
  if is_set found then pure tt else do
    act (mkdir_all (text "/proc") 0o755)
    act (mount (text "proc") (text "/proc") (text "proc") [])

abbrev pub is_filled : Result (List Text) → Bool
is_filled (ok names) = ltb 2 (length names)
is_filled (err e) = false

-- `mountDev`
unfoldable pub mount_dev : Io (Unit {0})
mount_dev = do
  files ← attempt (ask_names (read_dir (text "/dev")))
  if is_filled files then pure tt else do
    act (mkdir_all (text "/dev") 0o755)
    act (mount (text "none") (text "/dev") (text "devtmpfs") [])

-- `(major << 8) | (minor & 0xff) | ((minor & 0xfff00) << 12)`
unfoldable pub device_number : ℕ → ℕ → ℕ
device_number major minor =
    bit_or (bit_or (major * 2 ^ 8) (bit_and minor 0xff)) (bit_and minor 0xfff00 * 2 ^ 12)

abbrev pub node_if_missing : Result FileInfo → Text → ℕ → ℕ → ℕ → Io (Unit {0})
node_if_missing (ok info) path mode major minor = pure tt
node_if_missing (err e) path mode major minor = act (mknod path mode (device_number major minor))

-- `mknod`
unfoldable pub make_node : Text → ℕ → ℕ → ℕ → Io (Unit {0})
make_node path mode major minor = do
  found ← attempt (ask_info (stat path))
  node_if_missing found path mode major minor

abbrev pub char_device : ℕ
char_device = 0o20000

abbrev pub block_device : ℕ
block_device = 0o60000

-- `for i := 0; i < 7; i++`, with the rounds that are left
unfoldable pub loop_nodes : ℕ → ℕ → Io (Unit {0})
loop_nodes zero i = pure tt
loop_nodes (suc n) i =
    make_node (text "/dev/loop" ++ itoa i) (0o700 + block_device) 7 i >>= λ _. loop_nodes n (suc i)

-- `ensureloop`
unfoldable pub ensure_loop : Io (Unit {0})
ensure_loop = do
  proc ← attempt mount_proc
  lift (with_context (text "failed to mount proc: ") proc)
  dev ← attempt mount_dev
  lift (with_context (text "failed to mount dev: ") dev)
  act_ (run (text "modprobe" ∷ text "loop" ∷ []) [])
  make_node (text "/dev/loop-control") (0o700 + char_device) 10 237
  loop_nodes 7 0
