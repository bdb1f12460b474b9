-- ===== src/Rc/Boot.antt =====
-- pkg/cli/rc/rc.go: what the first commands of a boot do, whatever fails of them.
use k3os.Base.{ℕ, List, [], ◌∷◌, ◌++◌, Option}
use k3os.Base.Text.{Text, text}
use k3os.Os.Call.{Call, mount_flags, write_file, read_file, run, hostname, readlink}
use k3os.Os.Makes.{Makes, Makes-bind, makes_rules}
use k3os.Rc.Mounts.{mount_root_dirs, mount_devices, mount_sysfs, mount_cgroups, do_mounts}
use k3os.Rc.Run.{do_hotplug, do_clock, do_resolv_conf, do_loopback, do_hostname, run_rc}
use k3os.Rc.Makes.{
  call_rules, mount_cgroup-Makes, add_usb-Makes, empty_target-Makes, unless_named-Makes,
}

-- A file system of this type is mounted where it belongs, with these flags and options.
abbrev pub mounted : Text → Text → Text → ℕ → Text → Call
mounted source target fstype flags options = mount_flags source target fstype flags options

abbrev pub root_mounts : List Call
root_mounts =
    mounted (text "proc") (text "/proc") (text "proc") 0x20000e []
    ∷ mounted (text "tmpfs") (text "/run") (text "tmpfs") 0x20000e (text "size=10%,mode=755")
    ∷ mounted (text "tmpfs") (text "/tmp") (text "tmpfs") 0x20000e (text "size=10%,mode=1777")
    ∷ []

abbrev pub device_mounts : List Call
device_mounts =
    mounted (text "dev") (text "/dev") (text "devtmpfs") 0x20000a
      (text "size=10m,nr_inodes=248418,mode=755")
    ∷ mounted (text "mqueue") (text "/dev/mqueue") (text "mqueue") 14 []
    ∷ mounted (text "shm") (text "/dev/shm") (text "tmpfs") 14 (text "mode=1777")
    ∷ mounted (text "devpts") (text "/dev/pts") (text "devpts") 10 (text "gid=5,mode=0620")
    ∷ []

abbrev pub system_mounts : List Call
system_mounts =
    mounted (text "sysfs") (text "/sys") (text "sysfs") 14 []
    ∷ mounted (text "securityfs") (text "/sys/kernel/security") (text "securityfs") 14 []
    ∷ mounted (text "debugfs") (text "/sys/kernel/debug") (text "debugfs") 14 []
    ∷ mounted (text "configfs") (text "/sys/kernel/config") (text "configfs") 14 []
    ∷ mounted (text "fusectl") (text "/sys/fs/fuse/connections") (text "fusectl") 14 []
    ∷ mounted (text "selinuxfs") (text "/sys/fs/selinux") (text "selinuxfs") 10 []
    ∷ mounted (text "pstore") (text "/sys/fs/pstore") (text "pstore") 14 []
    ∷ mounted (text "efivarfs") (text "/sys/firmware/efi/efivars") (text "efivarfs") 14 []
    ∷ mounted (text "binfmt_misc") (text "/proc/sys/fs/binfmt_misc") (text "binfmt_misc") 14 []
    ∷ []

-- The cgroups, and the root, which is made shared
abbrev pub cgroup_mounts : List Call
cgroup_mounts =
    mounted (text "cgroup_root") (text "/sys/fs/cgroup") (text "tmpfs") 14
      (text "mode=755,size=10m")
    ∷ read_file (text "/proc/cgroups")
    ∷ mounted (text "cgroup") (text "/sys/fs/cgroup/systemd") (text "cgroup") 0
        (text "none,name=systemd")
    ∷ mounted [] (text "/") [] 0x104000 []
    ∷ []

abbrev pub mount_calls : List Call
mount_calls = root_mounts ++ (device_mounts ++ (system_mounts ++ cgroup_mounts))

-- mdev is set as the program for hot plugs and run once, and the clock is set.
abbrev pub device_calls : List Call
device_calls =
    write_file (text "/proc/sys/kernel/hotplug") (text "/usr/sbin/mdev") 0o600
    ∷ run (text "/usr/sbin/mdev" ∷ text "-s" ∷ []) []
    ∷ []

abbrev pub clock_calls : List Call
clock_calls = run (text "/sbin/hwclock" ∷ text "--hctosys" ∷ text "--utc" ∷ []) [] ∷ []

abbrev pub ip : List Text → Call
ip args = run (text "/sbin/ip" ∷ args) []

abbrev pub loopback_calls : List Call
loopback_calls =
    ip (
      text "addr"
      ∷ text "add"
      ∷ text "127.0.0.1/8"
      ∷ text "dev"
      ∷ text "lo"
      ∷ text "brd"
      ∷ text "+"
      ∷ text "scope"
      ∷ text "host"
      ∷ [])
    ∷ ip (
        text "route"
        ∷ text "add"
        ∷ text "127.0.0.0/8"
        ∷ text "dev"
        ∷ text "lo"
        ∷ text "scope"
        ∷ text "host"
        ∷ [])
    ∷ ip (text "link" ∷ text "set" ∷ text "lo" ∷ text "up" ∷ [])
    ∷ []

abbrev pub name_calls : List Call
name_calls = read_file (text "/etc/hostname") ∷ hostname ∷ []

abbrev pub resolv_calls : List Call
resolv_calls = readlink (text "/etc/resolv.conf") ∷ []

-- The calls that every boot makes, in their order
abbrev pub boot_calls : List Call
boot_calls =
    mount_calls
    ++ (device_calls ++ (clock_calls ++ (loopback_calls ++ (name_calls ++ resolv_calls))))

module _ (mkdev : ℕ → ℕ → ℕ) (read_all : Text → Option (List (List Text))) where
  mount_root_dirs-Makes : Makes root_mounts mount_root_dirs
  unfolding mount_root_dirs
  mount_root_dirs-Makes = search (makes_rules, call_rules) depth 40

  mount_devices-Makes : Makes device_mounts (mount_devices mkdev)
  unfolding mount_devices
  mount_devices-Makes = search (makes_rules, call_rules) depth 60

  mount_sysfs-Makes : Makes system_mounts mount_sysfs
  unfolding mount_sysfs
  mount_sysfs-Makes = search (makes_rules, call_rules) depth 40

  mount_cgroups-Makes : Makes cgroup_mounts (mount_cgroups read_all)
  unfolding mount_cgroups
  mount_cgroups-Makes = search (makes_rules, call_rules, mount_cgroup-Makes) depth 30

  do_mounts-Makes : Makes mount_calls (do_mounts mkdev read_all)
  unfolding do_mounts
  do_mounts-Makes = Makes-bind root_mounts _ mount_root_dirs _ mount_root_dirs-Makes λ _.
      Makes-bind device_mounts _ (mount_devices mkdev) _ mount_devices-Makes
        λ _. Makes-bind system_mounts _ mount_sysfs _ mount_sysfs-Makes λ _. mount_cgroups-Makes

do_hotplug-Makes : Makes device_calls do_hotplug
unfolding do_hotplug
do_hotplug-Makes = search (makes_rules, call_rules, add_usb-Makes) depth 20

do_clock-Makes : Makes clock_calls do_clock
unfolding do_clock
do_clock-Makes = search makes_rules

do_resolv_conf-Makes : Makes resolv_calls do_resolv_conf
unfolding do_resolv_conf
do_resolv_conf-Makes = search (makes_rules, empty_target-Makes) depth 9

do_loopback-Makes : Makes loopback_calls do_loopback
unfolding do_loopback
do_loopback-Makes = search makes_rules depth 9

do_hostname-Makes : Makes name_calls do_hostname
unfolding do_hostname
do_hostname-Makes = search (makes_rules, call_rules, unless_named-Makes) depth 20

-- Whatever the system answers, the sub-command rc returns without an error, and has then made these
-- calls in this order, among others: the mounts of /proc, /run, /tmp, /dev and three below it, /sys and
-- eight below it, and /sys/fs/cgroup; the read of the list of cgroups; the mount of the systemd cgroup
-- and the one that makes the root shared; the setting of mdev for hot plugs and its run; the setting of
-- the clock; the address, the route and the start of the loopback link; the reads of the configured host name and of the name that is set; and the
-- read of the link /etc/resolv.conf.
pub run_rc-Makes :
    (mkdev : ℕ → ℕ → ℕ) (read_all : Text → Option (List (List Text)))
    → Makes boot_calls (run_rc mkdev read_all)
unfolding run_rc
run_rc-Makes mkdev read_all =
    Makes-bind mount_calls _ (do_mounts mkdev read_all) _ (do_mounts-Makes mkdev read_all) λ _.
      Makes-bind device_calls _ do_hotplug _ do_hotplug-Makes λ _.
        Makes-bind clock_calls _ do_clock _ do_clock-Makes λ _.
          Makes-bind loopback_calls _ do_loopback _ do_loopback-Makes
            λ _. Makes-bind name_calls _ do_hostname _ do_hostname-Makes λ _. do_resolv_conf-Makes
