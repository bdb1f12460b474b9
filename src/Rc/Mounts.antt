-- ===== src/Rc/Mounts.antt =====
-- pkg/cli/rc/rc.go: `doMounts`, in its four parts.
use k3os.Base.{ℕ, ◌+◌, List, [], ◌∷◌, Option}
use k3os.Base.Text.{Text, text}
use k3os.Base.FilePath.{join_path}
use k3os.Os.Io.{Io, for_each, ◌>>=◌, ◌>>◌}
use k3os.Rc.Calls.{
  nosuid, nodev, noexec, rec, shared, relatime, make_dir, mount_at, mount_silent, make_char,
  make_link, cgroup_list, write,
}

-- The root, and the standard directories in /var
unfoldable pub mount_root_dirs : Io (Unit {0})
mount_root_dirs = do
  mount_silent (text "proc") (text "/proc") (text "proc") (nodev + nosuid + noexec + relatime) []
  mount_at (text "tmpfs") (text "/run") (text "tmpfs") (nodev + nosuid + noexec + relatime)
      (text "size=10%,mode=755")
  mount_at (text "tmpfs") (text "/tmp") (text "tmpfs") (nodev + nosuid + noexec + relatime)
      (text "size=10%,mode=1777")
  make_dir (text "/var/cache") 0o755
  make_dir (text "/var/empty") 0o555
  make_dir (text "/var/lib") 0o755
  make_dir (text "/var/local/bin") 0o755
  make_dir (text "/var/lock") 0o755
  make_dir (text "/var/log") 0o755
  make_dir (text "/var/opt") 0o755
  make_dir (text "/var/spool") 0o755
  make_dir (text "/var/tmp") 0o1777
  make_dir (text "/home") 0o755
  make_link (text "/run") (text "/var/run")

-- What follows `// mount devfs`
unfoldable pub mount_devices : (ℕ → ℕ → ℕ) → Io (Unit {0})
mount_devices mkdev = do
  mount_at (text "dev") (text "/dev") (text "devtmpfs") (nosuid + noexec + relatime)
      (text "size=10m,nr_inodes=248418,mode=755")
  make_char mkdev (text "/dev/console") 0o600 5 1
  make_char mkdev (text "/dev/tty1") 0o620 4 1
  make_char mkdev (text "/dev/tty") 0o666 5 0
  make_char mkdev (text "/dev/null") 0o666 1 3
  make_char mkdev (text "/dev/kmsg") 0o660 1 11
  make_link (text "/proc/self/fd") (text "/dev/fd")
  make_link (text "/proc/self/fd/0") (text "/dev/stdin")
  make_link (text "/proc/self/fd/1") (text "/dev/stdout")
  make_link (text "/proc/self/fd/2") (text "/dev/stderr")
  make_link (text "/proc/kcore") (text "/dev/kcore")
  make_dir (text "/dev/mqueue") 0o1777
  make_dir (text "/dev/shm") 0o1777
  make_dir (text "/dev/pts") 0o755
  mount_at (text "mqueue") (text "/dev/mqueue") (text "mqueue") (noexec + nosuid + nodev) []
  mount_at (text "shm") (text "/dev/shm") (text "tmpfs") (noexec + nosuid + nodev)
      (text "mode=1777")
  mount_at (text "devpts") (text "/dev/pts") (text "devpts") (noexec + nosuid)
      (text "gid=5,mode=0620")

-- What follows `// sysfs`
unfoldable pub mount_sysfs : Io (Unit {0})
mount_sysfs = do
  mount_at (text "sysfs") (text "/sys") (text "sysfs") (noexec + nosuid + nodev) []
  mount_silent (text "securityfs") (text "/sys/kernel/security") (text "securityfs")
      (noexec + nosuid + nodev) []
  mount_silent (text "debugfs") (text "/sys/kernel/debug") (text "debugfs")
      (noexec + nosuid + nodev) []
  mount_silent (text "configfs") (text "/sys/kernel/config") (text "configfs")
      (noexec + nosuid + nodev) []
  mount_silent (text "fusectl") (text "/sys/fs/fuse/connections") (text "fusectl")
      (noexec + nosuid + nodev) []
  mount_silent (text "selinuxfs") (text "/sys/fs/selinux") (text "selinuxfs") (noexec + nosuid) []
  mount_silent (text "pstore") (text "/sys/fs/pstore") (text "pstore") (noexec + nosuid + nodev) []
  mount_silent (text "efivarfs") (text "/sys/firmware/efi/efivars") (text "efivarfs")
      (noexec + nosuid + nodev) []
  mount_silent (text "binfmt_misc") (text "/proc/sys/fs/binfmt_misc") (text "binfmt_misc")
      (noexec + nosuid + nodev) []

-- The body of the loop over the cgroups
unfoldable pub mount_cgroup : Text → Io (Unit {0})
mount_cgroup cg = do
  let path = join_path (text "/sys/fs/cgroup" ∷ cg ∷ [])
  make_dir path 0o555
  mount_at cg path (text "cgroup") (noexec + nosuid + nodev) cg

-- What follows `// mount cgroup root tmpfs`
unfoldable pub mount_cgroups : (Text → Option (List (List Text))) → Io (Unit {0})
mount_cgroups read_all = do
  mount_at (text "cgroup_root") (text "/sys/fs/cgroup") (text "tmpfs") (nodev + noexec + nosuid)
      (text "mode=755,size=10m")
  cgroups ← cgroup_list read_all
  for_each cgroups mount_cgroup
  write (text "/sys/fs/cgroup/memory/memory.use_hierarchy") (text "1")
  make_dir (text "/sys/fs/cgroup/systemd") 0o555
  mount_at (text "cgroup") (text "/sys/fs/cgroup/systemd") (text "cgroup") 0
      (text "none,name=systemd")
  mount_at [] (text "/") [] (rec + shared) []

-- `doMounts`
unfoldable pub do_mounts : (ℕ → ℕ → ℕ) → (Text → Option (List (List Text))) → Io (Unit {0})
do_mounts mkdev read_all = do
  mount_root_dirs
  mount_devices mkdev
  mount_sysfs
  mount_cgroups read_all
