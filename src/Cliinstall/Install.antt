-- ===== src/Cliinstall/Install.antt =====
-- `Ask` and `AskInstall` of pkg/cliinstall/ask.go, and pkg/cliinstall/install.go.
pub mod Confirmed
use k3os.Base.{Option, none, some, List, [], ◌∷◌, ◌++◌, Bool, true, false, not, if◌then◌else◌}
use k3os.Base.Text.{Text, text, is_empty}
use k3os.Os.Io.{lift}
use k3os.Config.{CloudConfig, K3os, Install}
use k3os.Config.Mapper.{Mapper}
use k3os.Config.Env.{print_install}
use k3os.Config.Read.{read_config}
use k3os.Questions.{prompt_bool}
use k3os.Cliinstall.Asking.{Asking, give, by_system, ask, not_nil, ◌>>=◌}
use k3os.Cliinstall.Ask.{
  is_install, with_install, ask_install_device, ask_config_url, ask_github, ask_server_agent,
}
use k3os.Cliinstall.Files.{install_with, save_config}
use k3os.Cliinstall.Password.{ask_password}
use k3os.Cliinstall.Wifi.{ask_wifi}

-- The questions that a cloud-init file answers
unfoldable pub ask_rest : CloudConfig → Asking CloudConfig
ask_rest cfg = do
  with_github ← ask_github cfg
  with_password ← ask_password with_github
  with_wifi ← ask_wifi with_password
  ask_server_agent with_wifi

-- `AskInstall`
unfoldable pub ask_install : CloudConfig → Asking CloudConfig
ask_install cfg = do
  install ← not_nil cfg.k3os.install
  if install.silent then give cfg else do
    with_device ← ask_install_device cfg
    with_url ← ask_config_url with_device
    install' ← not_nil with_url.k3os.install
    if is_empty install'.config_url then ask_rest with_url else give with_url

-- `Ask`
unfoldable pub ask_config : CloudConfig → Asking (Bool × CloudConfig)
ask_config cfg = do
  installs ← is_install
  asked ← if installs then ask_install cfg else ask_server_agent cfg
  give (installs, asked)

module _ (mapper : Mapper) where
  -- `runInstall`
  unfoldable pub run_install : CloudConfig → Asking (Unit {0})
  run_install cfg = do
    shown ← by_system (lift (print_install mapper cfg))
    install ← not_nil cfg.k3os.install
    goes_on ← if install.silent then give true else ask (prompt_bool false)
    if goes_on then by_system (install_with mapper install.config_url cfg) else give tt

  -- `Run`
  unfoldable pub run_installation : Text → Asking (Unit {0})
  run_installation program = do
    cfg ← by_system (read_config mapper)
    asked ← ask_config cfg
    if asked.0 then run_install asked.1 else by_system (save_config mapper program asked.1)
