-- ===== src/Upgrade/Quiet.antt =====
-- pkg/cli/upgrade/upgrade.go: the copies of an upgrade.
use k3os.Base.{Bool}
use k3os.Base.Text.{Text}
use k3os.Os.Call.{Call, Result, ok, err, FileInfo, sync, run, run_env, exec, exec_env, modprobe}
use k3os.Os.Io.{Io}
use k3os.Os.Adds.{Adds, adds_rules}
use k3os.System.Component.{
  Paths, VersionName, stat_component_version, place_version, move_aside, install_version,
  copy_component,
}
use k3os.Upgrade.{Flags, Progress, validate_system_root, open_lock, upgrade_one, upgrade_all}

-- A call that neither syncs nor runs a program, a reboot for one
abbrev pub IsQuiet : Call → Type 0
IsQuiet sync = ⊥
IsQuiet (run words input) = ⊥
IsQuiet (run_env words env) = ⊥
IsQuiet (exec words) = ⊥
IsQuiet (exec_env words env) = ⊥
IsQuiet (modprobe name params) = ⊥
IsQuiet _ = Unit

place_version-IsQuiet : (p : Paths) (i : FileInfo) (t : Text) → Adds IsQuiet (place_version p i t)
unfolding place_version
place_version-IsQuiet p i t = search (adds_rules, tt) depth 12

move_aside-IsQuiet :
    (r : Result FileInfo) (path : Text) (rest : Io Bool)
    → Adds IsQuiet rest
    → Adds IsQuiet (move_aside r path rest)
unfolding move_aside
move_aside-IsQuiet (ok i) path rest k = search (adds_rules, tt) depth 9
move_aside-IsQuiet (err e) path rest k = k

install_version-IsQuiet : (p : Paths) (i : FileInfo) → Adds IsQuiet (install_version p i)
unfolding install_version
install_version-IsQuiet p i =
    search (adds_rules, tt, move_aside-IsQuiet, place_version-IsQuiet) depth 12

stat_component_version-IsQuiet :
    (root key : Text) (alias : VersionName) → Adds IsQuiet (stat_component_version root key alias)
unfolding stat_component_version
stat_component_version-IsQuiet root key alias = search (adds_rules, tt) depth 12

pub copy_component-IsQuiet :
    (src dst : Text) (remount : Bool) (key : Text)
    → Adds IsQuiet (copy_component src dst remount key)
unfolding copy_component
copy_component-IsQuiet src dst remount key =
    search (adds_rules, tt, stat_component_version-IsQuiet, install_version-IsQuiet) depth 12

upgrade_one-IsQuiet :
    (f : Flags) (wanted : Bool) (key : Text) (s : Progress)
    → Adds IsQuiet (upgrade_one f wanted key s)
unfolding upgrade_one
upgrade_one-IsQuiet f wanted key s = search (adds_rules, copy_component-IsQuiet) depth 9

pub upgrade_all-IsQuiet : (f : Flags) → Adds IsQuiet (upgrade_all f)
unfolding upgrade_all
upgrade_all-IsQuiet f = search (adds_rules, upgrade_one-IsQuiet) depth 9

validate-IsQuiet : (root : Text) → Adds IsQuiet (validate_system_root root)
unfolding validate_system_root
validate-IsQuiet root = search (adds_rules, tt)

pub open_lock-IsQuiet : (f : Flags) → Adds IsQuiet (open_lock f)
unfolding open_lock
open_lock-IsQuiet f = search (adds_rules, validate-IsQuiet) depth 9
