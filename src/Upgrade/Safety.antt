-- ===== src/Upgrade/Safety.antt =====
-- pkg/cli/upgrade/upgrade.go: the order of the calls of `Run`.
use k3os.Base.{◌≡◌, Option, none, ◌∷◌, ◌⊎◌}
use k3os.Base.Text.{Text}
use k3os.Os.Call.{Call, Error, Result, ok, err, History, Os, stat, open_file, flock}
use k3os.Os.Io.{act, continue, of_error}
use k3os.Os.Adds.{Adds, Since, adds_rules}
use k3os.Upgrade.{Flags, Progress, unless_found, enter_destination, finish, locked_part}

abbrev AnyCall : Call → Type 0
AnyCall c = Unit

unless_found-Adds : (f : Flags) (r : Result (Unit {0})) → Adds AnyCall (unless_found f r)
unfolding unless_found
unless_found-Adds f (ok a) = search adds_rules
unless_found-Adds f (err e) = search (adds_rules, tt) depth 9

enter_destination-Adds : (f : Flags) → Adds AnyCall (enter_destination f)
unfolding enter_destination
enter_destination-Adds f = search (adds_rules, tt, unless_found-Adds) depth 9

pub finish-Adds : (f : Flags) (s : Progress) → Adds AnyCall (finish f s)
unfolding finish
finish-Adds f s = search (adds_rules, tt, enter_destination-Adds) depth 9

abbrev pub IsQuestion : Call → Type 0
IsQuestion (stat p) = Unit
IsQuestion (open_file p) = Unit
IsQuestion _ = ⊥

module _ (f : Flags) (os : Os) where
  -- There is a point that the run reaches by questions only. The run ends there, or it ends with
  -- the request for the lock, or the system grants the lock there and the rest comes after it.
  abbrev pub LocksFirst : History → History → Type 0
  LocksFirst h h' =
      (h₁ : History) × Since IsQuestion h h₁
      × ((h' ≡ h₁)
          ⊎ (h' ≡ flock f.lock_file ∷ h₁)
          ⊎ ((os.act h₁ (flock f.lock_file) ≡ none) × Since AnyCall (flock f.lock_file ∷ h₁) h'))

  abbrev from_lock : History → Option Error → Result (Unit {0}) × History
  from_lock h₁ answer = continue (of_error answer) (λ _. locked_part f) os (flock f.lock_file ∷ h₁)
