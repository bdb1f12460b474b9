-- ===== src/Cliinstall/Ask.antt =====
-- pkg/cliinstall/ask.go: the questions, except those for the password and the networks. A function
-- that changes the configuration returns the new one; where it fails, the caller drops it.
pub mod Server
pub mod Device
use k3os.Base.{
  ℕ, ◌==◌, Option, none, some, List, [], ◌∷◌, ◌++◌, map, Bool, true, false, not, ◌&&◌, ◌||◌, is_nil,
  length, get_elem?, if◌then◌else◌,
}
use k3os.Base.Text.{Text, text, ◌=ᵗ◌, is_empty, split, trim_space, fields}
use k3os.Os.Call.{run}
use k3os.Os.Io.{Io, ask_text}
use k3os.Config.{CloudConfig, K3os, Install}
use k3os.Mode.{get_mode}
use k3os.Questions.{prompt, prompt_optional, prompt_options, prompt_bool}
use k3os.Cliinstall.Asking.{Asking, give, by_system, ask, not_nil, in_bounds, ◌>>=◌}

-- `isInstall`
unfoldable pub is_install : Asking Bool
is_install = do
  mode ← by_system (get_mode [])
  if mode =ᵗ text "install"
      then give true
      else if mode =ᵗ text "live-server" || mode =ᵗ text "live-agent"
      then give false
      else (do i ← ask (prompt_options (some 0) 2); give (i == 0))

abbrev pub list_disks : List Text
list_disks =
    text "/bin/sh" ∷ text "-c" ∷ text "lsblk -r -o NAME,TYPE | grep -w disk | awk '{print $1}'" ∷ []

abbrev pub with_install : (Install → Install) → CloudConfig → CloudConfig
with_install f cfg = record cfg { k3os = record cfg.k3os { install = on_some cfg.k3os.install } }
  where
    on_some : Option Install → Option Install
    on_some none = none
    on_some (some i) = some (f i)

-- `AskInstallDevice`
unfoldable pub ask_install_device : CloudConfig → Asking CloudConfig
ask_install_device cfg = do
  install ← not_nil cfg.k3os.install
  if not (is_empty install.device) then give cfg else do
    output ← by_system (ask_text (run list_disks []))
    let disks = fields output
    i ← ask (prompt_options none (length disks))
    disk ← in_bounds (get_elem? disks i)
    give (with_install (λ i. record i { device = text "/dev/" ++ disk }) cfg)

-- `AskToken`
unfoldable pub ask_token : Bool → CloudConfig → Asking CloudConfig
ask_token server cfg = if not (is_empty cfg.k3os.token) then give cfg else do
  token ← ask (if server then prompt_optional [] else prompt [])
  give (record cfg { k3os = record cfg.k3os { token = token } })

-- `isServer`
unfoldable pub is_server : CloudConfig → Asking Bool
is_server cfg = do
  mode ← by_system (get_mode [])
  if mode =ᵗ text "live-server"
      then give true
      else if mode =ᵗ text "live-agent"
          || not (is_empty cfg.k3os.server_url) && not (is_empty cfg.k3os.token)
      then give false
      else (do i ← ask (prompt_options (some 0) 2); give (i == 0))

unfoldable pub ask_agent : CloudConfig → Asking CloudConfig
ask_agent cfg = do
  url ← ask (prompt [])
  ask_token false (record cfg { k3os = record cfg.k3os { server_url = url } })

-- `AskServerAgent`
unfoldable pub ask_server_agent : CloudConfig → Asking CloudConfig
ask_server_agent cfg =
    if not (is_empty cfg.k3os.server_url)
    then give cfg
    else do server ← is_server cfg; if server then ask_token true cfg else ask_agent cfg

abbrev pub github_keys : List Text → List Text
github_keys [] = []
github_keys (user ∷ users) = (text "github:" ++ trim_space user) ∷ github_keys users

-- `AskGithub`
unfoldable pub ask_github : CloudConfig → Asking CloudConfig
ask_github cfg =
    if not (is_nil cfg.ssh_authorized_keys) || not (is_empty cfg.k3os.password)
    then give cfg
    else do
      wanted ← ask (prompt_bool false)
      if not wanted then give cfg else do
        users ← ask (prompt [])
        give (record cfg {
          ssh_authorized_keys = cfg.ssh_authorized_keys ++ github_keys (split b',' users);
        })

-- `AskConfigURL`
unfoldable pub ask_config_url : CloudConfig → Asking CloudConfig
ask_config_url cfg = do
  install ← not_nil cfg.k3os.install
  if not (is_empty install.config_url) then give cfg else do
    wanted ← ask (prompt_bool false)
    if not wanted
        then give cfg
        else do url ← ask (prompt []); give (with_install (λ i. record i { config_url = url }) cfg)
