-- ===== src/Cliinstall/Install/Confirmed.antt =====
-- `runInstall` of pkg/cliinstall/install.go: the confirmation, and the temporary file.
use k3os.Base.{◌⊎◌, inl, inr, Option-cases, ◌≡◌, refl, false, List, [], ◌∷◌, ◌++◌, none, some}
use k3os.Base.Text.{Text, text}
use k3os.Os.Adds.{Since, Since-call, Since-trans}
use k3os.Os.Call.{
  Error, Result, err, Result-cases, Call, ok, Os, History, write_open, close, remove, run_env,
}
use k3os.Os.Io.{lift, pure, act, act_, ask_text, defer, continue, of_error}
use k3os.Os.Io as Io
use k3os.Config.{CloudConfig, Install}
use k3os.Config.Mapper.{Mapper}
use k3os.Config.Env.{to_env, print_install}
use k3os.Questions.{answer, prompt_bool}
use k3os.Cliinstall.Asking.{Terminal, give, ask, by_system, ◌>>=◌}
use k3os.Cliinstall.Ask.{with_install}
use k3os.Cliinstall.Files.{start_install, install_from, without_install}
use k3os.Cliinstall.Install.{run_install}

module _ (mapper : Mapper) (os : Os) where
  -- The calls that put the configuration into a temporary file, start the installation and remove the
  -- file, the latest first. What each of them answers makes no difference to those after the start.
  abbrev pub installation : Text → Text → List Text → List Call
  installation temp bytes ev =
      close temp
      ∷ remove temp
      ∷ run_env (text "/usr/libexec/k3os/install" ∷ []) ev
      ∷ close temp
      ∷ write_open temp bytes
      ∷ []

  -- A call that does not start the installation
  abbrev pub IsNoStart : Call → Type 0
  IsNoStart (run_env words ev) = ⊥
  IsNoStart _ = Unit

  closed : (temp : Text) (h : History) → Since IsNoStart h (close temp ∷ h)
  closed temp h = Since-call IsNoStart (close temp) h tt

  written-closed :
      (temp bytes : Text) (h : History) → Since IsNoStart h (close temp ∷ write_open temp bytes ∷ h)
  written-closed temp bytes h =
      Since-trans IsNoStart h _ _ (Since-call IsNoStart (write_open temp bytes) h tt)
        (closed temp (write_open temp bytes ∷ h))

  -- It failed before the start.
  abbrev pub Failed : History → Result (Unit {0}) × History → Type 0
  Failed h (r, h') = (e : Error) × (r ≡ err e) × Since IsNoStart h h'

  -- The system accepted that the configuration is written to the file and the file is closed; then the
  -- installation was started with the variables that name the file, the file was removed afterwards, and
  -- the result of the installation is the result.
  abbrev pub Started : Text → CloudConfig → History → Result (Unit {0}) × History → Type 0
  Started temp cfg h (r, h') =
      (bytes : Text) × (ev : List Text) × (mapper.marshal_config (without_install cfg) ≡ ok bytes)
      × (to_env mapper (with_install (λ i. record i { config_url = temp }) cfg) ≡ ok ev)
      × (os.act h (write_open temp bytes) ≡ none)
      × (os.act (write_open temp bytes ∷ h) (close temp) ≡ none)
      × (r
          ≡ of_error (
              os.act (close temp ∷ write_open temp bytes ∷ h)
                (run_env (text "/usr/libexec/k3os/install" ∷ []) ev)))
      × (h' ≡ installation temp bytes ev ++ h)

  -- With no URL configured, either an error ends the installation before it is started, or the system
  -- accepted that the configuration is written to the file and the file is closed before the start, and
  -- the file is removed after it, whether the installation succeeds or fails, and its result is the
  -- result.
  pub install_from-Started :
      (cfg : CloudConfig) (temp : Text) (h : History)
      → Failed h (install_from mapper temp cfg os h)
        ⊎ Started temp cfg h (install_from mapper temp cfg os h)
  unfolding install_from start_install defer act act_ lift Io.◌>>=◌
  install_from-Started cfg temp h =
      elim (Result-cases (to_env mapper (with_install (λ i. record i { config_url = temp }) cfg))) [
        | inr (e, e₁) ↦ inl (e, rw e₁ refl, rw e₁ (closed temp h))
        | inl (ev, e₁) ↦ elim (Result-cases (mapper.marshal_config (without_install cfg))) [
          | inr (e, e₂) ↦ inl (e, rw (e₁, e₂) refl, rw (e₁, e₂) (closed temp h))
          | inl (bytes, e₂) ↦ elim (Option-cases (os.act h (write_open temp bytes))) [
            | inr (e, e₃) ↦
                inl (e, rw (e₁, e₂, e₃) refl, rw (e₁, e₂, e₃) (written-closed temp bytes h))
            | inl e₃ ↦ elim (Option-cases (os.act (write_open temp bytes ∷ h) (close temp))) [
              | inr (e, e₄) ↦ inl (
                e,
                rw (e₁, e₂, e₃, e₄) refl,
                rw (e₁, e₂, e₃, e₄)
                    (Since-trans IsNoStart h _ _ (written-closed temp bytes h)
                      (closed temp (close temp ∷ write_open temp bytes ∷ h))),
              )
              | inl e₄ ↦
                  inr
                    (bytes, ev, e₂, e₁, e₃, e₄, rw (e₁, e₂, e₃, e₄) refl, rw (e₁, e₂, e₃, e₄) refl)
            ]
          ]
        ]
      ]

  -- An installation that is not silent asks first, and an answer other than yes ends it with no error
  -- and no call at all.
  pub run_install-declined :
      (cfg : CloudConfig) (install : Install) (shown : Text) (rest : List Text) (t : Terminal)
      (h : History)
      → print_install mapper cfg ≡ ok shown
      → cfg.k3os.install ≡ some install
      → install.silent ≡ false
      → prompt_bool false t.lines ≡ answer false rest
      → run_install mapper cfg t os h ≡ (ok (tt, record t { lines = rest }), h)
  unfolding run_install give ask by_system lift ◌>>=◌
  run_install-declined cfg install shown rest t h e₁ e₂ e₃ e₄ = rw (e₁, e₂, e₃, e₄) refl
