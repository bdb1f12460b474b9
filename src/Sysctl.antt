-- ===== src/Sysctl.antt =====
-- pkg/sysctl/sysctl.go
use k3os.Base.{◌∷◌}
use k3os.Base.Text.{Text, text, split}
use k3os.Base.FilePath.{join_path}
use k3os.Os.Call.{write_file}
use k3os.Os.Io.{Io, act, for_each}
use k3os.Config.{StringMap}

unfoldable pub sysctl_path : Text → Text
unfolding join_path split
sysctl_path key = join_path (text "/proc" ∷ text "sys" ∷ split b'.' key)

-- `ConfigureSysctl`
unfoldable pub configure_sysctl : StringMap → Io (Unit {0})
unfolding sysctl_path for_each act
configure_sysctl sysctls =
    for_each sysctls λ entry. act (write_file (sysctl_path entry.0) entry.1 0o644)
