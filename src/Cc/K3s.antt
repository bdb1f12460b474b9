-- ===== src/Cc/K3s.antt =====
-- `ApplyK3S` and `ApplyInstall` of pkg/cc/funcs.go
pub mod Labels
pub mod Decision
use k3os.Base.{
  ℕ, Option, none, some, List, [], ◌∷◌, ◌++◌, map, Bool, true, false, not, ◌&&◌, is_nil,
  if◌then◌else◌,
}
use k3os.Base.Text.{Text, text, ◌=ᵗ◌, is_empty, has_prefix, sort_texts}
use k3os.Os.Call.{Error, Result, ok, err, FileInfo, stat, run, run_env}
use k3os.Os.Io.{Io, pure, attempt, act, ask_info, ◌>>=◌, ◌>>◌}
use k3os.Mode.{get_mode}
use k3os.Config.{K3os, StringMap}

abbrev pub is_ok {ℓ} : {A : Type ℓ} → Result A → Bool
is_ok (ok a) = true
is_ok (err e) = false

-- `_, err := os.Stat(path); err == nil`
unfoldable pub exists : Text → Io Bool
unfolding pure attempt ask_info ◌>>=◌
exists path = do found ← attempt (ask_info (stat path)); pure (is_ok found)

-- The variables for the installer; `none` where the function returns early.
unfoldable pub base_vars : Bool → Bool → Bool → Bool → Option (List Text)
base_vars k3s_exists k3s_local_exists restart install =
    if not k3s_exists && not restart
    then none
    else if k3s_exists
    then some (
        text "INSTALL_K3S_NAME=service"
        ∷ text "INSTALL_K3S_SKIP_DOWNLOAD=true"
        ∷ text "INSTALL_K3S_BIN_DIR=/sbin"
        ∷ text "INSTALL_K3S_BIN_DIR_READ_ONLY=true"
        ∷ [])
    else if k3s_local_exists
    then some (text "INSTALL_K3S_NAME=service" ∷ text "INSTALL_K3S_SKIP_DOWNLOAD=true" ∷ [])
    else if not install
    then none
    else some (text "INSTALL_K3S_NAME=service" ∷ [])

abbrev pub quoted_var : Text → Text → Text
quoted_var name value = name ++ (text "=\"" ++ (value ++ text "\"\n"))

unfoldable pub server_vars : K3os → List Text
server_vars k = if is_empty k.server_url then [] else quoted_var (text "K3S_URL") k.server_url ∷ []

unfoldable pub token_vars : K3os → List Text
unfolding has_prefix
token_vars k =
    if has_prefix k.token (text "K10")
    then quoted_var (text "K3S_TOKEN") k.token ∷ []
    else if is_empty k.token
    then []
    else quoted_var (text "K3S_CLUSTER_SECRET") k.token ∷ []

unfoldable pub install_vars : K3os → Bool → List Text → List Text
unfolding server_vars token_vars
install_vars k restart vars =
    vars
    ++ ((if restart then [] else text "INSTALL_K3S_SKIP_START=true" ∷ [])
        ++ (server_vars k ++ token_vars k))

-- The role is the first argument if none was configured.
unfoldable pub role_args : K3os → List Text
role_args k =
    if is_nil k.k3s_args
    then (if is_empty k.server_url then text "server" else text "agent") ∷ []
    else k.k3s_args

abbrev pub label_of : Text × Text → Text
label_of (k, v) = k ++ (text "=" ++ v)

unfoldable pub node_labels : StringMap → Text → Text → List Text
unfolding sort_texts
node_labels labels mode version = sort_texts (
    map label_of labels
    ++ ((if is_empty mode then [] else (text "k3os.io/mode=" ++ mode) ∷ [])
        ++ (text "k3os.io/version=" ++ version) ∷ []))

abbrev pub label_args : List Text → List Text
label_args [] = []
label_args (l ∷ ls) = text "--node-label" ∷ l ∷ label_args ls

abbrev pub taint_args : List Text → List Text
taint_args [] = []
taint_args (t ∷ ts) = text "--kubelet-arg" ∷ (text "register-with-taints=" ++ t) ∷ taint_args ts

unfoldable pub install_args : K3os → Text → Text → List Text
unfolding role_args node_labels
install_args k mode version =
    role_args k ++ (label_args (node_labels k.labels mode version) ++ taint_args k.taints)

abbrev pub run_installer : K3os → Bool → Text → Text → Option (List Text) → Io (Unit {0})
run_installer k restart mode version none = pure tt
run_installer k restart mode version (some vars) = act (
    run_env (text "/usr/libexec/k3os/k3s-install.sh" ∷ install_args k mode version)
      (install_vars k restart vars))

-- `version.Version`, which the build sets
module _ (version : Text) where
  -- `ApplyK3S`
  unfoldable pub apply_k3s : K3os → Bool → Bool → Io (Unit {0})
  unfolding pure act ◌>>=◌ exists base_vars install_args install_vars get_mode ◌=ᵗ◌
  apply_k3s k restart install = do
    mode ← get_mode []
    if mode =ᵗ text "install" then pure tt else do
      k3s_exists ← exists (text "/sbin/k3s")
      k3s_local_exists ← exists (text "/usr/local/bin/k3s")
      run_installer k restart mode version (base_vars k3s_exists k3s_local_exists restart install)

-- `ApplyInstall`
unfoldable pub apply_install : Io (Unit {0})
unfolding pure act ◌>>=◌ get_mode ◌=ᵗ◌
apply_install = do
  mode ← get_mode []
  if mode =ᵗ text "install" then act (run (text "k3os" ∷ text "install" ∷ []) []) else pure tt
