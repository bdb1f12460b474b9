-- ===== src/Rc/Run.antt =====
-- pkg/cli/rc/rc.go: the parts of the boot other than the mounts, and the sub-command.
use k3os.Base.{ℕ, ◌==◌, List, [], ◌∷◌, ◌++◌, not, ◌&&◌, Option, if◌then◌else◌}
use k3os.Base.Text.{Text, text, ◌=ᵗ◌, has_prefix, is_empty}
use k3os.Base.FilePath.{join_path, dir_name}
use k3os.Os.Call.{Result, ok, err, failed, readlink, run, sethostname, hostname, getuid}
use k3os.Os.Io.{Io, pure, raise, attempt, act_, ask_text, ask_number, for_each, when, ◌>>=◌, ◌>>◌}
use k3os.Cc.K3s.{exists}
use k3os.Rc.Calls.{make_dir, write, read, read_names, glob_names, modalias}
use k3os.Rc.Mounts.{do_mounts}

abbrev pub devices : Text
devices = text "/sys/devices"

-- The body of the loop over /sys/devices; `&&` asks for the file only if the name fits.
unfoldable pub add_usb : Text → Io (Unit {0})
add_usb f = do
  let uevent = join_path (devices ∷ f ∷ text "uevent" ∷ [])
  when (has_prefix f (text "usb"))
      (do there ← exists uevent; when there (write uevent (text "add")))

-- `doHotplug`
unfoldable pub do_hotplug : Io (Unit {0})
do_hotplug = do
  write (text "/proc/sys/kernel/hotplug") (text "/usr/sbin/mdev")
  files ← read_names devices
  for_each files add_usb
  act_ (run (text "/usr/sbin/mdev" ∷ text "-s" ∷ []) [])
  aliases ← glob_names (text "/sys/bus/*/devices/*/modalias")
  for_each aliases modalias

-- `doClock`
unfoldable pub do_clock : Io (Unit {0})
do_clock = act_ (run (text "/sbin/hwclock" ∷ text "--hctosys" ∷ text "--utc" ∷ []) [])

abbrev pub empty_target : Result Text → Io (Unit {0})
empty_target (err e) = pure tt
empty_target (ok link) = make_dir (dir_name link) 0o755 >> write link []

-- `doResolvConf`
unfoldable pub do_resolv_conf : Io (Unit {0})
do_resolv_conf = do
  link ← attempt (ask_text (readlink (text "/etc/resolv.conf")))
  empty_target link

-- `doLoopback`
unfoldable pub do_loopback : Io (Unit {0})
do_loopback = do
  act_ (
      run
        (text "/sbin/ip"
          ∷ text "addr"
          ∷ text "add"
          ∷ text "127.0.0.1/8"
          ∷ text "dev"
          ∷ text "lo"
          ∷ text "brd"
          ∷ text "+"
          ∷ text "scope"
          ∷ text "host"
          ∷ [])
        [])
  act_ (
      run
        (text "/sbin/ip"
          ∷ text "route"
          ∷ text "add"
          ∷ text "127.0.0.0/8"
          ∷ text "dev"
          ∷ text "lo"
          ∷ text "scope"
          ∷ text "host"
          ∷ [])
        [])
  act_ (run (text "/sbin/ip" ∷ text "link" ∷ text "set" ∷ text "lo" ∷ text "up" ∷ []) [])

-- `strings.Replace(mac, ":", "", -1)`
unfoldable pub without_colons : Text → Text
without_colons [] = []
without_colons (c ∷ s) = if c == b':' then without_colons s else c ∷ without_colons s

-- The last part of `doHostname`
unfoldable pub name_from_mac : Io (Unit {0})
name_from_mac = do
  mac ← read (text "/sys/class/net/eth0/address")
  when (not (is_empty mac)) (act_ (sethostname (text "k3os-" ++ without_colons mac)))

abbrev pub unless_named : Result Text → Io (Unit {0})
unless_named (err e) = pure tt
unless_named (ok name) =
    if not (name =ᵗ text "(none)") && not (is_empty name) then pure tt else name_from_mac

-- `doHostname`
unfoldable pub do_hostname : Io (Unit {0})
do_hostname = do
  configured ← read (text "/etc/hostname")
  when (not (is_empty configured)) (act_ (sethostname configured))
  name ← attempt (ask_text hostname)
  unless_named name

-- `Before` of the sub-command
unfoldable pub before : Io (Unit {0})
before = do
  uid ← ask_number getuid
  if uid == 0 then pure tt else raise (failed (text "must be run as root"))

-- `Action` of the sub-command
unfoldable pub run_rc : (ℕ → ℕ → ℕ) → (Text → Option (List (List Text))) → Io (Unit {0})
run_rc mkdev read_all = do
  do_mounts mkdev read_all
  do_hotplug
  do_clock
  do_loopback
  do_hostname
  do_resolv_conf
