-- ===== src/Cc/Apply/Offline.antt =====
-- pkg/cc/apply.go: the network and the phases that come before it is up.
use k3os.Base.{List, [], ◌∷◌, ◌++◌, false}
use k3os.Os.Io.{pure, attempt, ◌>>=◌}
use k3os.Os.Adds.{Adds, Adds-pure, Adds-bind, Adds-attempt, adds_rules}
use k3os.Config.{CloudConfig}
use k3os.Cc.Connman.{apply_dns, apply_wifi, apply_data_source}
use k3os.Cc.Apply.{
  Applier, Tools, error_of, run_applies, apply_modules, apply_sysctls, apply_hostname,
  apply_password, apply_bootcmd, apply_initcmd, apply_write_files, apply_ssh_keys,
  apply_k3s_no_restart, apply_env, boot_apply, init_apply,
}
use k3os.Cc.Apply.Network.{
  apply_k3s-Adds, IsOffline, load_modules-Adds, configure_sysctl-Adds, set_hostname-Adds,
  set_password-Adds, execute_command-Adds, apply_dns-Adds, apply_wifi-Adds, apply_data_source-Adds,
  apply_environment-Adds, write_files-Adds, set_authorized_keys-Adds,
}

-- Each of the appliers is offline at every configuration.
abbrev AllOffline : List Applier → Type 0
AllOffline [] = Unit
AllOffline (a ∷ appliers) = ((cfg : CloudConfig) → Adds IsOffline (a cfg)) × AllOffline appliers

run_applies-Adds :
    (cfg : CloudConfig) (appliers : List Applier)
    → AllOffline appliers
    → Adds IsOffline (run_applies cfg appliers)
unfolding run_applies
run_applies-Adds cfg [] k = search adds_rules
run_applies-Adds cfg (a ∷ appliers) (first, rest) =
    Adds-bind IsOffline (attempt (a cfg))
      (λ r. run_applies cfg appliers >>= λ errors. pure (error_of r ++ errors))
      (Adds-attempt IsOffline (a cfg) (first cfg))
      λ r.
        Adds-bind IsOffline (run_applies cfg appliers) (λ errors. pure (error_of r ++ errors))
          (run_applies-Adds cfg appliers rest) λ errors. Adds-pure IsOffline (error_of r ++ errors)

module _ (t : Tools) where
  data_source : (c : CloudConfig) → Adds IsOffline (apply_data_source c.k3os)
  data_source c = apply_data_source-Adds c.k3os

  modules : (c : CloudConfig) → Adds IsOffline (apply_modules c)
  unfolding apply_modules
  modules c = load_modules-Adds c.k3os.modules

  sysctls : (c : CloudConfig) → Adds IsOffline (apply_sysctls c)
  unfolding apply_sysctls
  sysctls c = configure_sysctl-Adds c.k3os.sysctls

  names : (c : CloudConfig) → Adds IsOffline (apply_hostname c)
  unfolding apply_hostname
  names c = set_hostname-Adds c.hostname

  dns : (c : CloudConfig) → Adds IsOffline (apply_dns c.k3os)
  dns c = apply_dns-Adds c.k3os

  wifi : (c : CloudConfig) → Adds IsOffline (apply_wifi c.k3os)
  wifi c = apply_wifi-Adds c.k3os

  password : (c : CloudConfig) → Adds IsOffline (apply_password c)
  unfolding apply_password
  password c = set_password-Adds c.k3os.password

  keys : (c : CloudConfig) → Adds IsOffline (apply_ssh_keys t c)
  unfolding apply_ssh_keys
  keys c = set_authorized_keys-Adds t.parse_url c.ssh_authorized_keys

  k3s : (c : CloudConfig) → Adds IsOffline (apply_k3s_no_restart t c)
  unfolding apply_k3s_no_restart
  k3s c = apply_k3s-Adds t.version c.k3os false false

  files : (c : CloudConfig) → Adds IsOffline (apply_write_files t c)
  unfolding apply_write_files
  files c = write_files-Adds t.codec c.write_files

  env : (c : CloudConfig) → Adds IsOffline (apply_env t c)
  unfolding apply_env
  env c = apply_environment-Adds t.quote t.unquote c.k3os

  boot : (c : CloudConfig) → Adds IsOffline (apply_bootcmd c)
  unfolding apply_bootcmd
  boot c = execute_command-Adds c.bootcmd

  init : (c : CloudConfig) → Adds IsOffline (apply_initcmd c)
  unfolding apply_initcmd
  init c = execute_command-Adds c.initcmd

  -- The boot phase and the init phase, which come before the network is up, make no HTTP request,
  -- whatever the configuration and the system: keys that are URLs wait for the run phase.
  pub boot_apply-IsOffline :
      (cfg : CloudConfig) → Adds IsOffline (boot_apply t cfg) × Adds IsOffline (init_apply t cfg)
  unfolding boot_apply init_apply
  boot_apply-IsOffline cfg = (
    run_applies-Adds cfg _ (
      data_source,
      (
        modules,
        (sysctls, (names, (dns, (wifi, (password, (keys, (k3s, (files, (env, (boot, tt)))))))))),
      ),
    ),
    run_applies-Adds cfg _ (modules, (sysctls, (names, (files, (env, (init, tt)))))),
  )
