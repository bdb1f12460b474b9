-- ===== src/Cli/App/Checks.antt =====
-- pkg/cli: what the sub-commands check before they do anything.
use k3os.Base.{
  ◌≡◌, refl, arith, ◌⊎◌, inl, inr, ◌==◌, ◌||◌, ℕ, Bool, true, false, Option, none, some, List, ◌∷◌,
  Bool-cases, ap, ◌∙◌, not, ◌&&◌, if◌then◌else◌,
}
use k3os.Base.Text.{Text, text, ◌=ᵗ◌}
use k3os.Os.Call.{failed, Result, err, Os, History, getuid}
use k3os.Os.Io.{raise, ask_number, ◌>>=◌}
use k3os.Config.{CloudConfig}
use k3os.Config.Mapper.{Mapper}
use k3os.Cc.Apply.{Tools}
use k3os.Upgrade as Upgrade
use k3os.Upgrade.{run_upgrade}
use k3os.Rc.Run as Rc
use k3os.Cliinstall.Asking.{Terminal}
use k3os.Cli.{must_be_root, config_command}
use k3os.Cli.Installing.{install_command}
use k3os.Cli.App.{Values, upgrade_if, upgrade_command, rc_command, run_command}

-- The roots differ, and there is something to upgrade.
abbrev pub IsReady : Upgrade.Flags → Type 0
IsReady f =
    ((f.destination_dir =ᵗ f.source_dir) ≡ false)
    × ((f.upgrade_k3os || f.upgrade_k3s || f.upgrade_kernel) ≡ true)

-- `rootfs` stands for the components k3os and k3s.
abbrev pub full : Upgrade.Flags → Upgrade.Flags
full f = record f {
  upgrade_k3os = f.upgrade_root_fs || f.upgrade_k3os;
  upgrade_k3s = f.upgrade_root_fs || f.upgrade_k3s;
}

by_root_fs :
    (f : Upgrade.Flags) (b : Bool)
    → (if b then record f { upgrade_k3os = true; upgrade_k3s = true } else f)
      ≡ record f { upgrade_k3os = b || f.upgrade_k3os; upgrade_k3s = b || f.upgrade_k3s }
by_root_fs f true = refl
by_root_fs f false = refl

abbrev if_any : Upgrade.Flags → Option Upgrade.Flags
if_any g = if not g.upgrade_k3os && not g.upgrade_k3s && not g.upgrade_kernel then none else some g

if_any-some :
    (g : Upgrade.Flags)
    → (if_any g ≡ none)
      ⊎ (((g.upgrade_k3os || g.upgrade_k3s || g.upgrade_kernel) ≡ true) × (if_any g ≡ some g))
if_any-some g =
    elim (Bool-cases (not g.upgrade_k3os && not g.upgrade_k3s && not g.upgrade_kernel)) [
      | inl e ↦ inl (rw e refl)
      | inr e ↦ inr (ground arith, rw e refl)
    ]

before-if_any :
    (f : Upgrade.Flags)
    → (f.destination_dir =ᵗ f.source_dir) ≡ false
    → Upgrade.before f ≡ if_any (full f)
unfolding Upgrade.before
before-if_any f e = rw e (ap if_any (by_root_fs f f.upgrade_root_fs))

before_same :
    (f : Upgrade.Flags) → (f.destination_dir =ᵗ f.source_dir) ≡ true → Upgrade.before f ≡ none
unfolding Upgrade.before
before_same f e = rw e refl

-- A command `upgrade` ends at once and makes no call, or it is a run of the upgrade, in which `rootfs`
-- stands for the components k3os and k3s, with roots that differ and at least one component.
pub upgrade_command-IsReady :
    (f : Upgrade.Flags)
    → ((os : Os) (h : History) → upgrade_command f os h ≡ (err (failed (text "exit status 1")), h))
      ⊎ (IsReady (full f) × (upgrade_command f ≡ run_upgrade (full f)))
unfolding upgrade_command raise
upgrade_command-IsReady f = elim (Bool-cases (f.destination_dir =ᵗ f.source_dir)) [
  | inl same ↦ inl λ os h. ap (λ o. upgrade_if o os h) (before_same f same)
  | inr differ ↦ elim (if_any-some (full f)) [
    | inl e ↦ inl λ os h. ap (λ o. upgrade_if o os h) (before-if_any f differ ∙ e)
    | inr (some_wanted, e) ↦ inr ((differ, some_wanted), ap upgrade_if (before-if_any f differ ∙ e))
  ]
]

module _ (mkdev : ℕ → ℕ → ℕ) (read_all : Text → Option (List (List Text))) (mapper : Mapper)
    (to_json : CloudConfig → Result Text) (tools : Tools) (program : Text)
    (terminal : Terminal) where
  -- For a user who is not root, the commands rc, config and install ask who the user is, and end with
  -- an error and no other call, whatever their flags.
  pub run_command-must_be_root :
      (name : Text) (v : Values) (os : Os) (h : History)
      → (os.number_of h getuid == 0) ≡ false
      → (name =ᵗ text "rc" || name =ᵗ text "config" || name =ᵗ text "install") ≡ true
      → run_command mkdev read_all mapper to_json tools program terminal name v os h
        ≡ (err (failed (text "must be run as root")), getuid ∷ h)
  unfolding run_command rc_command config_command install_command must_be_root Rc.before ask_number
      raise ◌>>=◌
  run_command-must_be_root name v os h user known = elim (Bool-cases (name =ᵗ text "rc")) [
    | inl e ↦ rw (e, user) refl
    | inr not_rc ↦ elim (Bool-cases (name =ᵗ text "config")) [
      | inl e ↦ rw (not_rc, e, user) refl
      | inr not_config ↦ elim (Bool-cases (name =ᵗ text "install")) [
        | inl e ↦ rw (not_rc, not_config, e, user) refl
        | inr not_install ↦ absurd (ground arith)
      ]
    ]
  ]
