-- ===== src/Cli/Phases.antt =====
-- pkg/cli/config/config.go with pkg/config and pkg/cc: the phases and the network.
use k3os.Base.{arith, ◌≡◌, true, false, Bool, if◌then◌else◌, ◌||◌}
use k3os.Base.Text.{Text}
use k3os.Os.Call.{Call, Result, ok, err}
use k3os.Os.Io.{Io, attempt}
use k3os.Os.Adds.{Adds, Adds-bind, Adds-attempt, adds_rules}
use k3os.Config.{CloudConfig}
use k3os.Config.Mapper.{Mapper}
use k3os.Config.Read.{read_config}
use k3os.Config.Read.Reading.{read_config-Adds}
use k3os.Cc.Apply.{Tools}
use k3os.Cc.Apply.Network.{IsOffline}
use k3os.Cc.Apply.Offline.{boot_apply-IsOffline}
use k3os.Cli.{Flags, must_be_root, apply_phase, after_read, main_config, config_command}

early-Adds {ℓ} :
    {A : Type ℓ} (P : Call → Type 0) (a b : Bool) (m n o : Io A)
    → (a || b) ≡ true
    → Adds P m
    → Adds P n
    → Adds P (if a then m else if b then n else o)
early-Adds P true b m n o e km kn = km
early-Adds P false true m n o e km kn = kn
early-Adds P false false m n o e km kn = ground arith

must_be_root-Adds : Adds IsOffline must_be_root
unfolding must_be_root
must_be_root-Adds = search (adds_rules, tt)

module _ (mapper : Mapper) (to_json : CloudConfig → Result Text) (tools : Tools) where
  apply_phase-Adds :
      (flags : Flags) (cfg : CloudConfig)
      → (flags.initrd || flags.boot_phase) ≡ true
      → Adds IsOffline (apply_phase mapper to_json tools flags cfg)
  unfolding apply_phase
  apply_phase-Adds flags cfg early =
      let (boot, init) = boot_apply-IsOffline tools cfg in
      early-Adds IsOffline flags.initrd flags.boot_phase _ _ _ early init boot

  after_reading :
      (flags : Flags)
      → (flags.initrd || flags.boot_phase) ≡ true
      → (cfg : Result CloudConfig) → Adds IsOffline (after_read mapper to_json tools flags cfg)
  unfolding after_read
  after_reading flags early (ok cfg) = apply_phase-Adds flags cfg early
  after_reading flags early (err e) = search adds_rules

  -- The command `config` with `--initrd` or `--boot`, which runs before the network is up, makes no HTTP
  -- request: not in its check of the user, nor where it reads the configuration, nor where it applies it.
  pub config_command-IsOffline :
      (flags : Flags)
      → (flags.initrd || flags.boot_phase) ≡ true
      → Adds IsOffline (config_command mapper to_json tools flags)
  unfolding config_command main_config
  config_command-IsOffline flags early = Adds-bind IsOffline must_be_root _ must_be_root-Adds λ u.
      Adds-bind IsOffline (attempt (read_config mapper)) _
        (Adds-attempt IsOffline _ (read_config-Adds IsOffline (λ path. tt) (λ path. tt) mapper))
        (after_reading flags early)
