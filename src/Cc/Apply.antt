-- ===== src/Cc/Apply.antt =====
-- pkg/cc/apply.go, and the one-line appliers of funcs.go
pub mod Order
pub mod Network
pub mod Offline
use k3os.Base.{Bool, true, false, Option, List, [], ◌∷◌, ◌++◌}
use k3os.Base.Text.{Text}
use k3os.Os.Call.{Error, Result, ok, err}
use k3os.Os.Io.{Io, pure, attempt, ◌>>=◌}
use k3os.Config.{CloudConfig}
use k3os.Module.{load_modules}
use k3os.Sysctl.{configure_sysctl}
use k3os.Hostname.{set_hostname}
use k3os.Command.{set_password, execute_command}
use k3os.Util.Decode.{Codec}
use k3os.WriteFile.{write_files}
use k3os.Ssh.Keys.{UrlParser, set_authorized_keys}
use k3os.Cc.K3s.{apply_k3s, apply_install}
use k3os.Cc.Connman.{apply_dns, apply_wifi, apply_data_source}
use k3os.Cc.Environment.{apply_environment}

-- `applier`
abbrev pub Applier : Type 0
Applier = CloudConfig → Io (Unit {0})

abbrev pub error_of : Result (Unit {0}) → List Error
error_of (ok u) = []
error_of (err e) = e ∷ []

-- `runApplies`: the errors of the appliers; `NewMultiError` joins them if there is any.
unfoldable pub run_applies : CloudConfig → List Applier → Io (List Error)
run_applies cfg [] = pure []
run_applies cfg (a ∷ appliers) = do
  r ← attempt (a cfg)
  errors ← run_applies cfg appliers
  pure (error_of r ++ errors)

-- What the appliers use from elsewhere.
pub record Tools : Type 0 where
  pub codec : Codec
  pub parse_url : UrlParser
  pub quote : Text → Text
  pub unquote : Text → Option Text
  pub version : Text

unfoldable pub apply_modules : Applier
apply_modules cfg = load_modules cfg.k3os.modules

unfoldable pub apply_sysctls : Applier
apply_sysctls cfg = configure_sysctl cfg.k3os.sysctls

unfoldable pub apply_hostname : Applier
apply_hostname cfg = set_hostname cfg.hostname

unfoldable pub apply_password : Applier
apply_password cfg = set_password cfg.k3os.password

unfoldable pub apply_runcmd : Applier
apply_runcmd cfg = execute_command cfg.runcmd

unfoldable pub apply_bootcmd : Applier
apply_bootcmd cfg = execute_command cfg.bootcmd

unfoldable pub apply_initcmd : Applier
apply_initcmd cfg = execute_command cfg.initcmd

module _ (t : Tools) where
  unfoldable pub apply_write_files : Applier
  apply_write_files cfg = write_files t.codec cfg.write_files

  unfoldable pub apply_ssh_keys : Applier
  apply_ssh_keys cfg = set_authorized_keys t.parse_url cfg.ssh_authorized_keys false

  unfoldable pub apply_ssh_keys_with_net : Applier
  apply_ssh_keys_with_net cfg = set_authorized_keys t.parse_url cfg.ssh_authorized_keys true

  unfoldable pub apply_k3s_with_restart : Applier
  apply_k3s_with_restart cfg = apply_k3s t.version cfg.k3os true false

  unfoldable pub apply_k3s_install : Applier
  apply_k3s_install cfg = apply_k3s t.version cfg.k3os true true

  unfoldable pub apply_k3s_no_restart : Applier
  apply_k3s_no_restart cfg = apply_k3s t.version cfg.k3os false false

  unfoldable pub apply_env : Applier
  apply_env cfg = apply_environment t.quote t.unquote cfg.k3os

  -- `RunApply`
  unfoldable pub run_apply : CloudConfig → Io (List Error)
  run_apply cfg = run_applies cfg (
      apply_modules
      ∷ apply_ssh_keys_with_net
      ∷ apply_write_files
      ∷ apply_env
      ∷ apply_runcmd
      ∷ (λ c. apply_install)
      ∷ apply_k3s_install
      ∷ [])

  -- `InstallApply`
  unfoldable pub install_apply : CloudConfig → Io (List Error)
  install_apply cfg = run_applies cfg (apply_k3s_with_restart ∷ [])

  -- `BootApply`
  unfoldable pub boot_apply : CloudConfig → Io (List Error)
  boot_apply cfg = run_applies cfg (
      (λ c. apply_data_source c.k3os)
      ∷ apply_modules
      ∷ apply_sysctls
      ∷ apply_hostname
      ∷ (λ c. apply_dns c.k3os)
      ∷ (λ c. apply_wifi c.k3os)
      ∷ apply_password
      ∷ apply_ssh_keys
      ∷ apply_k3s_no_restart
      ∷ apply_write_files
      ∷ apply_env
      ∷ apply_bootcmd
      ∷ [])

  -- `InitApply`
  unfoldable pub init_apply : CloudConfig → Io (List Error)
  init_apply cfg = run_applies cfg (
      apply_modules ∷ apply_sysctls ∷ apply_hostname ∷ apply_write_files ∷ apply_env ∷ apply_initcmd
      ∷ [])
