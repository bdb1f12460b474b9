-- ===== src/Cliinstall/Files.antt =====
-- pkg/cliinstall/install.go: the parts of `Run` and `runInstall` that follow the questions. The
-- environment of the process, which the variables are added to, is left out.
use k3os.Base.{none, List, [], ◌∷◌, if◌then◌else◌}
use k3os.Base.Text.{Text, text, is_empty}
use k3os.Os.Call.{Result, ok, err, run, run_env, temp_file, write_open, close, remove, create}
use k3os.Os.Io.{Io, pure, lift, attempt, defer, act, act_, ask_text, ◌>>=◌, ◌>>◌}
use k3os.Config.{CloudConfig}
use k3os.Config.Mapper.{Mapper}
use k3os.Config.Env.{to_env, to_bytes}
use k3os.Config.Read.{system_config, local_config}
use k3os.Cliinstall.Ask.{with_install}

abbrev pub without_install : CloudConfig → CloudConfig
without_install cfg = record cfg { k3os = record cfg.k3os { install = none } }

unfoldable pub start_install : List Text → Io (Unit {0})
unfolding act
start_install ev = act (run_env (text "/usr/libexec/k3os/install" ∷ []) ev)

module _ (mapper : Mapper) where
  -- What follows `ioutil.TempFile`: the configuration goes into the file, and the file is its URL.
  unfoldable pub install_from : Text → CloudConfig → Io (Unit {0})
  unfolding defer act_ act lift ◌>>=◌ start_install to_env
  install_from temp cfg = defer (act_ (close temp)) (do
    ev ← lift (to_env mapper (with_install (λ i. record i { config_url = temp }) cfg))
    bytes ← lift (mapper.marshal_config (without_install cfg))
    act (write_open temp bytes)
    act (close temp)
    defer (act_ (remove temp)) (start_install ev))

  -- The part of `runInstall` after the confirmation
  unfoldable pub install_with : Text → CloudConfig → Io (Unit {0})
  unfolding ask_text lift ◌>>=◌ install_from
  install_with config_url cfg =
      if is_empty config_url
      then (ask_text (temp_file (text "/tmp") (text "k3os.XXXXXXXX")) >>= λ temp.
          install_from temp cfg)
      else lift (to_env mapper cfg) >>= start_install

  abbrev pub or_local : Result (Unit {0}) → Io Text
  or_local (ok u) = pure system_config
  or_local (err e) = act (create local_config) >> pure local_config

  -- `os.Create(config.SystemConfig)`, or else the local one
  unfoldable pub create_config : Io Text
  unfolding attempt act ◌>>=◌ pure
  create_config = do r ← attempt (act (create system_config)); or_local r

  -- `runCCApply`; `program` is `os.Args[0]`.
  abbrev pub run_cc_apply : Text → Io (Unit {0})
  run_cc_apply program = act (run (program ∷ text "config" ∷ text "--install" ∷ []) [])

  -- The part of `Run` that saves the configuration
  unfoldable pub save_config : Text → CloudConfig → Io (Unit {0})
  unfolding create_config lift defer act act_ ◌>>=◌ to_bytes
  save_config program cfg = do
    bytes ← lift (to_bytes mapper cfg)
    file ← create_config
    defer (act_ (close file))
        (do act (write_open file bytes); act_ (close file); run_cc_apply program)
