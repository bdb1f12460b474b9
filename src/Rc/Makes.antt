-- ===== src/Rc/Makes.antt =====
-- pkg/cli/rc/rc.go: the helpers of the boot, none of which stops it.
use k3os.Base.{ℕ, List, [], ◌∷◌, not, ◌&&◌, inl, inr, Bool-cases, Option}
use k3os.Base.Text.{Text, text, ◌=ᵗ◌, is_empty}
use k3os.Os.Call.{Result, ok, err, mount_flags, write_file, read_file}
use k3os.Os.Makes.{Makes, Makes-pure, Makes-act_, makes_rules}
use k3os.Rc.Calls.{
  make_dir, mount_at, mount_silent, make_char, make_link, cgroup_list, write, read, read_names,
  glob_names, modalias,
}
use k3os.Rc.Run.{add_usb, empty_target, name_from_mac, unless_named}
use k3os.Rc.Mounts.{mount_cgroup}
use k3os.Cc.K3s.{exists}

pub make_dir-Makes : (path : Text) (perm : ℕ) → Makes [] (make_dir path perm)
unfolding make_dir
make_dir-Makes path perm = search makes_rules depth 9

pub mount_at-Makes :
    (source target fstype : Text) (flags : ℕ) (options : Text)
    → Makes [] (mount_at source target fstype flags options)
unfolding mount_at
mount_at-Makes source target fstype flags options = search (makes_rules, make_dir-Makes) depth 9

pub mount_silent-Makes :
    (source target fstype : Text) (flags : ℕ) (options : Text)
    → Makes [] (mount_silent source target fstype flags options)
unfolding mount_silent
mount_silent-Makes source target fstype flags options = search makes_rules depth 9

pub make_char-Makes :
    (mkdev : ℕ → ℕ → ℕ) (path : Text) (mode major minor : ℕ)
    → Makes [] (make_char mkdev path mode major minor)
unfolding make_char
make_char-Makes mkdev path mode major minor = search makes_rules depth 9

pub make_link-Makes : (old_name new_name : Text) → Makes [] (make_link old_name new_name)
unfolding make_link
make_link-Makes old_name new_name = search makes_rules depth 9

pub cgroup_list-Makes :
    (read_all : Text → Option (List (List Text))) → Makes [] (cgroup_list read_all)
unfolding cgroup_list
cgroup_list-Makes read_all = search makes_rules depth 9

pub write-Makes : (path value : Text) → Makes [] (write path value)
unfolding write
write-Makes path value = search makes_rules depth 9

pub read-Makes : (path : Text) → Makes [] (read path)
unfolding read
read-Makes path = search makes_rules depth 9

pub read_names-Makes : (path : Text) → Makes [] (read_names path)
unfolding read_names
read_names-Makes path = search makes_rules depth 9

pub glob_names-Makes : (path : Text) → Makes [] (glob_names path)
unfolding glob_names
glob_names-Makes path = search makes_rules depth 9

pub modalias-Makes : (path : Text) → Makes [] (modalias path)
unfolding modalias
modalias-Makes path = search (makes_rules, read-Makes) depth 9

pub exists-Makes : (path : Text) → Makes [] (exists path)
unfolding exists
exists-Makes path = search makes_rules depth 9

-- The calls of the helpers that are asked about
pub mount_at-Makes_call :
    (source target fstype : Text) (flags : ℕ) (options : Text)
    → Makes
        (mount_flags source target fstype flags options ∷ [])
        (mount_at source target fstype flags options)
unfolding mount_at make_dir
mount_at-Makes_call source target fstype flags options = search makes_rules depth 9

pub mount_silent-Makes_call :
    (source target fstype : Text) (flags : ℕ) (options : Text)
    → Makes
        (mount_flags source target fstype flags options ∷ [])
        (mount_silent source target fstype flags options)
unfolding mount_silent
mount_silent-Makes_call source target fstype flags options = Makes-act_ _

pub write-Makes_call :
    (path value : Text) → Makes (write_file path value 0o600 ∷ []) (write path value)
unfolding write
write-Makes_call path value = Makes-act_ _

pub read-Makes_call : (path : Text) → Makes (read_file path ∷ []) (read path)
unfolding read
read-Makes_call path = search makes_rules depth 9

pub cgroup_list-Makes_call :
    (read_all : Text → Option (List (List Text)))
    → Makes (read_file (text "/proc/cgroups") ∷ []) (cgroup_list read_all)
unfolding cgroup_list
cgroup_list-Makes_call read_all = search makes_rules depth 9

pub ruleset call_rules = (
  make_dir-Makes, mount_at-Makes, mount_silent-Makes, make_char-Makes, make_link-Makes,
  cgroup_list-Makes, write-Makes, read-Makes, read_names-Makes, glob_names-Makes, modalias-Makes,
  exists-Makes, cgroup_list-Makes_call, mount_at-Makes_call, mount_silent-Makes_call,
  write-Makes_call, read-Makes_call,
)

pub mount_cgroup-Makes : (cg : Text) → Makes [] (mount_cgroup cg)
unfolding mount_cgroup
mount_cgroup-Makes cg = search (makes_rules, call_rules) depth 20

pub add_usb-Makes : (f : Text) → Makes [] (add_usb f)
unfolding add_usb
add_usb-Makes f = search (makes_rules, call_rules) depth 20

pub empty_target-Makes : (link : Result Text) → Makes [] (empty_target link)
empty_target-Makes (ok link) = search (makes_rules, call_rules) depth 9
empty_target-Makes (err e) = search makes_rules

pub name_from_mac-Makes : Makes [] name_from_mac
unfolding name_from_mac
name_from_mac-Makes = search (makes_rules, call_rules) depth 9

pub unless_named-Makes : (name : Result Text) → Makes [] (unless_named name)
unless_named-Makes (err e) = search makes_rules
unless_named-Makes (ok name) =
    elim (Bool-cases (not (name =ᵗ text "(none)") && not (is_empty name))) [
      | inl named ↦ rw named (Makes-pure tt)
      | inr unnamed ↦ rw unnamed name_from_mac-Makes
    ]
