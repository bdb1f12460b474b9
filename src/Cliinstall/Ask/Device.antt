-- ===== src/Cliinstall/Ask/Device.antt =====
-- `AskInstallDevice` of pkg/cliinstall/ask.go: the disk that is chosen.
use k3os.Base.{
  ℕ, zero, suc, ◌<◌, ◌≡◌, refl, none, some, true, List, [], ◌∷◌, ◌++◌, length, get_elem?, arith,
}
use k3os.Base.Text.{Text, text, is_empty, fields}
use k3os.Os.Call.{ok, Os, History, run}
use k3os.Os.Io.{ask_text}
use k3os.Config.{CloudConfig, Install}
use k3os.Questions.{answer, prompt_options}
use k3os.Questions.FirstAnswer.{prompt_options-lt}
use k3os.Cliinstall.Asking.{Terminal, give, ask, by_system, ◌>>=◌}
use k3os.Cliinstall.Ask.{list_disks, with_install, ask_install_device}

get_elem?_lt {ℓ} :
    {A : Type ℓ} (xs : List A) (n : ℕ) → n < length xs → (x : A) × (get_elem? xs n ≡ some x)
get_elem?_lt [] n h = absurd (omega arith)
get_elem?_lt (x ∷ xs) zero h = (x, refl)
get_elem?_lt (x ∷ xs) (suc n) h = get_elem?_lt xs n (omega arith)

-- Where a device is to be chosen among disks that are listed, every answer of the user gives the
-- device of one of them, that at the number answered: the index is never out of range, and nothing
-- else of the configuration is changed.
pub ask_install_device-get_elem? :
    (cfg : CloudConfig) (install : Install) (output : Text) (i : ℕ) (rest : List Text)
    (t : Terminal) (os : Os) (h : History)
    → cfg.k3os.install ≡ some install
    → is_empty install.device ≡ true
    → os.text_of h (run list_disks []) ≡ ok output
    → 0 < length (fields output)
    → prompt_options none (length (fields output)) t.lines ≡ answer i rest
    → (disk : Text) × (get_elem? (fields output) i ≡ some disk)
      × (ask_install_device cfg t os h ≡ (
        ok (
          with_install (λ j. record j { device = text "/dev/" ++ disk }) cfg,
          record t { lines = rest },
        ),
        run list_disks [] ∷ h,
      ))
unfolding ask_install_device give ask by_system ask_text ◌>>=◌
ask_install_device-get_elem? cfg install output i rest t os h there blank listed some_disk chosen =
    let (disk, found) =
      get_elem?_lt (fields output) i
        (prompt_options-lt none (length (fields output)) t.lines rest i some_disk chosen) in
    (disk, found, rw (there, blank, listed, chosen, found) refl)
