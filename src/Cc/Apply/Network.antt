-- ===== src/Cc/Apply/Network.antt =====
-- The calls of the functions that the appliers use, and the network.
use k3os.Base.{ℕ, List, [], ◌∷◌, Bool, false, Option, none, some}
use k3os.Base.Text.{Text}
use k3os.Base.Number.{ℤ}
use k3os.Os.Call.{Call, Result, ok, err, http_get, FileInfo, not_exist, failed}
use k3os.Os.Adds.{Adds, adds_rules}
use k3os.Config.{K3os, File, StringMap}
use k3os.Mode.{get_mode}
use k3os.Command.{execute_one, execute_command, set_password}
use k3os.Sysctl.{configure_sysctl}
use k3os.Hostname.{write_hostname, sync_hostname, set_hostname}
use k3os.Module.{load_modules, load_module, load_call}
use k3os.Util.Decode.{Codec}
use k3os.Util.Files.{write_file_atomic, ensure_directory_exists, directory_or_make}
use k3os.WriteFile.{write_decoded, write_file_at, write_content, write_files}
use k3os.Ssh.Keys.{
  UrlParser, key_from, get_key, info_or_create, authorize_key, authorize_ssh_key, make_if_missing,
  set_authorized_keys,
}
use k3os.Cc.K3s.{exists, run_installer, apply_k3s}
use k3os.Cc.Connman.{apply_dns, apply_wifi, apply_data_source}
use k3os.Cc.Environment.{apply_environment}

abbrev pub IsOffline : Call → Type 0
IsOffline (http_get url) = ⊥
IsOffline _ = Unit

pub load_call-IsOffline : (words : List Text) → IsOffline (load_call words)
load_call-IsOffline [] = tt
load_call-IsOffline (w ∷ ws) = tt

pub load_module-Adds : (loaded : List Text) (m : Text) → Adds IsOffline (load_module loaded m)
unfolding load_module
load_module-Adds loaded m = search (adds_rules, load_call-IsOffline) depth 9

pub load_modules-Adds : (ms : List Text) → Adds IsOffline (load_modules ms)
unfolding load_modules
load_modules-Adds ms = search (adds_rules, tt, load_module-Adds) depth 9

pub configure_sysctl-Adds : (m : StringMap) → Adds IsOffline (configure_sysctl m)
unfolding configure_sysctl
configure_sysctl-Adds m = search (adds_rules, tt)

pub write_hostname-Adds : (name : Text) → Adds IsOffline (write_hostname name)
unfolding write_hostname
write_hostname-Adds [] = search adds_rules
write_hostname-Adds (c ∷ s) = search (adds_rules, tt) depth 9

pub set_hostname-Adds : (name : Text) → Adds IsOffline (set_hostname name)
unfolding set_hostname sync_hostname
set_hostname-Adds [] = search adds_rules
set_hostname-Adds (c ∷ s) = search (adds_rules, tt, write_hostname-Adds) depth 9

pub set_password-Adds : (p : Text) → Adds IsOffline (set_password p)
unfolding set_password
set_password-Adds [] = search adds_rules
set_password-Adds (c ∷ s) = search (adds_rules, tt)

pub execute_command-Adds : (cmds : List Text) → Adds IsOffline (execute_command cmds)
unfolding execute_command execute_one
execute_command-Adds cmds = search (adds_rules, tt) depth 9

pub apply_dns-Adds : (k : K3os) → Adds IsOffline (apply_dns k)
unfolding apply_dns
apply_dns-Adds k = search (adds_rules, tt) depth 9

pub apply_wifi-Adds : (k : K3os) → Adds IsOffline (apply_wifi k)
unfolding apply_wifi
apply_wifi-Adds k = search (adds_rules, tt) depth 12

pub apply_data_source-Adds : (k : K3os) → Adds IsOffline (apply_data_source k)
unfolding apply_data_source
apply_data_source-Adds k = search (adds_rules, tt) depth 9

pub apply_environment-Adds :
    (quote : Text → Text) (unquote : Text → Option Text) (k : K3os)
    → Adds IsOffline (apply_environment quote unquote k)
unfolding apply_environment
apply_environment-Adds quote unquote k = search (adds_rules, tt) depth 12

pub directory_or_make-Adds :
    (d : Text) (r : Result FileInfo) → Adds IsOffline (directory_or_make d r)
directory_or_make-Adds d (ok i) = search adds_rules
directory_or_make-Adds d (err e) = search (adds_rules, tt)

pub ensure-Adds : (d : Text) → Adds IsOffline (ensure_directory_exists d)
unfolding ensure_directory_exists
ensure-Adds d = search (adds_rules, tt, directory_or_make-Adds) depth 9

pub write_file_at-Adds : (f : File) (root : Text) → Adds IsOffline (write_file_at f root)
unfolding write_file_at write_decoded
write_file_at-Adds f root = search (adds_rules, ensure-Adds) depth 16

pub write_content-Adds :
    (c : Codec) (f : File) (r : Result Text) → Adds IsOffline (write_content c f r)
write_content-Adds c f (ok t) = search (adds_rules, write_file_at-Adds) depth 9
write_content-Adds c f (err e) = search adds_rules

pub write_files-Adds : (c : Codec) (fs : List File) → Adds IsOffline (write_files c fs)
unfolding write_files
write_files-Adds c fs = search (adds_rules, write_content-Adds) depth 9

pub get_mode-Adds : (prefix : List Text) → Adds IsOffline (get_mode prefix)
unfolding get_mode
get_mode-Adds prefix = search (adds_rules, tt) depth 9

pub exists-Adds : (p : Text) → Adds IsOffline (exists p)
unfolding exists
exists-Adds p = search (adds_rules, tt) depth 9

pub run_installer-Adds :
    (k : K3os) (restart : Bool) (mode version : Text) (vars : Option (List Text))
    → Adds IsOffline (run_installer k restart mode version vars)
run_installer-Adds k restart mode version none = search adds_rules
run_installer-Adds k restart mode version (some vars) = search (adds_rules, tt)

pub apply_k3s-Adds :
    (version : Text) (k : K3os) (restart install : Bool)
    → Adds IsOffline (apply_k3s version k restart install)
unfolding apply_k3s
apply_k3s-Adds version k restart install =
    search (adds_rules, get_mode-Adds, exists-Adds, run_installer-Adds) depth 12

pub key_from-Adds : (o : Option (Text × Text)) (key : Text) → Adds IsOffline (key_from o key false)
key_from-Adds none key = search adds_rules
key_from-Adds (some ([], opaque)) key = search adds_rules
key_from-Adds (some (c ∷ s, opaque)) key = search adds_rules

pub info_or_create-Adds : (f : Text) (r : Result FileInfo) → Adds IsOffline (info_or_create f r)
info_or_create-Adds f (ok i) = search adds_rules
info_or_create-Adds f (err (failed e)) = search adds_rules
info_or_create-Adds f (err (not_exist e)) = search (adds_rules, tt) depth 12

pub write_file_atomic-Adds : (f b : Text) (perm : ℕ) → Adds IsOffline (write_file_atomic f b perm)
unfolding write_file_atomic
write_file_atomic-Adds f b perm = search (adds_rules, tt) depth 12

pub authorize_key-Adds : (key f : Text) (uid gid : ℤ) → Adds IsOffline (authorize_key key f uid gid)
unfolding authorize_key
authorize_key-Adds [] f uid gid = search adds_rules
authorize_key-Adds (c ∷ key) f uid gid =
    search (adds_rules, tt, info_or_create-Adds, write_file_atomic-Adds) depth 12

pub make_if_missing-Adds :
    (p : UrlParser) (d : Text) (r : Result FileInfo) → Adds IsOffline (make_if_missing p d r)
make_if_missing-Adds p d (ok i) = search adds_rules
make_if_missing-Adds p d (err (not_exist e)) = search (adds_rules, tt)
make_if_missing-Adds p d (err (failed e)) = search adds_rules

pub authorize_ssh_key-Adds :
    (p : UrlParser) (key f : Text) (uid gid : ℤ)
    → Adds IsOffline (authorize_ssh_key p key f uid gid false)
unfolding authorize_ssh_key get_key
authorize_ssh_key-Adds p key f uid gid = search (adds_rules, key_from-Adds, authorize_key-Adds)

pub set_authorized_keys-Adds :
    (p : UrlParser) (keys : List Text) → Adds IsOffline (set_authorized_keys p keys false)
unfolding set_authorized_keys
set_authorized_keys-Adds p keys =
    search (adds_rules, tt, make_if_missing-Adds, authorize_ssh_key-Adds) depth 14
