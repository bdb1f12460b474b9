-- ===== src/Cli/Installing.antt =====
-- pkg/cli/install/install.go: the command `install`.
use k3os.Base.Text.{Text}
use k3os.Os.Io.{Io, pure, attempt, ◌>>◌}
use k3os.Config.Mapper.{Mapper}
use k3os.Cliinstall.Asking.{Terminal}
use k3os.Cliinstall.Install.{run_installation}
use k3os.Cli.{must_be_root}

-- `Before`, then the `Action`, of the path of the program and the terminal; an error of the
-- installation is only logged.
unfoldable pub install_command : Mapper → Text → Terminal → Io (Unit {0})
install_command mapper program terminal = do
  must_be_root
  attempt (run_installation mapper program terminal)
  pure tt
