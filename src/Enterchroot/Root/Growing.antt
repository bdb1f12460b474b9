-- ===== src/Enterchroot/Root/Growing.antt =====
-- pkg/enterchroot/enter.go: the steps before the root is switched add calls to the history, and keep those that are there.
use k3os.Base.Text.{Text}
use k3os.Os.Call.{failed, not_exist, Result, ok, err, FileInfo}
use k3os.Os.Io.{Io}
use k3os.Os.Adds.{Adds, adds_rules}
use k3os.Os.Accepted.{IsAny}
use k3os.Enterchroot.Start.{get_env}
use k3os.Enterchroot.Root.{wrapped, in_proc_fs, check_squashfs, link_if_missing, link_usr}

pub Adds-wrapped {ℓ} :
    {A : Type ℓ} (context : Text) (m : Io A) → Adds IsAny m → Adds IsAny (wrapped context m)
unfolding wrapped
Adds-wrapped context m k = record { at = λ os h. k.at os h }

pub get_env-Adds : (name : Text) → Adds IsAny (get_env name)
unfolding get_env
get_env-Adds name = search (adds_rules, tt)

in_proc_fs-Adds : Adds IsAny in_proc_fs
unfolding in_proc_fs
in_proc_fs-Adds = search (adds_rules, tt)

pub check_squashfs-Adds : Adds IsAny check_squashfs
unfolding check_squashfs
check_squashfs-Adds = search (adds_rules, in_proc_fs-Adds, tt) depth 20

link_if_missing-Adds : (found : Result FileInfo) (p : Text) → Adds IsAny (link_if_missing found p)
link_if_missing-Adds (ok info) p = search adds_rules
link_if_missing-Adds (err (failed e)) p = search adds_rules
link_if_missing-Adds (err (not_exist e)) p = search (adds_rules, Adds-wrapped, tt)

pub link_usr-Adds : (p : Text) → Adds IsAny (link_usr p)
unfolding link_usr
link_usr-Adds p = search (adds_rules, link_if_missing-Adds, tt)

pub ruleset root_rules =
    (adds_rules, Adds-wrapped, get_env-Adds, check_squashfs-Adds, link_usr-Adds, tt)
