-- ===== src/Enterchroot/Root/Order.antt =====
-- pkg/enterchroot/enter.go: the order of the calls that change the root.
use k3os.Base.{not, List, [], ◌∷◌}
use k3os.Base.Text.{Text, text}
use k3os.Base.FilePath.{join_path}
use k3os.Os.Call.{Error, Result, err, Os, History, mounted, mkdir_all}
use k3os.Os.Io.{act, ask_flag, when}
use k3os.Os.Accepted.{begun, other_step}
use k3os.Enterchroot.Root.Growing.{root_rules}
use k3os.Enterchroot.Start.{get_env}
use k3os.Enterchroot.Root.{wrapped, run_root}
use k3os.Enterchroot.Root.Switching.{Switched, fails, pivot_step}

-- `run` ends with an error, or the process was replaced by /usr/init after the system had accepted, in
-- this order, the mount of /usr, the change to the data directory, the switch of the root, the private
-- mount and the two calls that enter the new root.
pub run_root-Switched :
    (base : Text) (args : List Text) (os : Os) (start : History)
    → Switched os start base args (run_root base args os start)
unfolding run_root
run_root-Switched base args os start =
    other_step os start Goal no (wrapped _ (ask_flag (mounted base))) _ [] start
      (search (root_rules, tt)) begun
      λ is_mounted h₁ k₁.
        other_step os start Goal no (when (not is_mounted) _) _ [] h₁ (search (root_rules, tt)) k₁
          λ u₂ h₂ k₂.
            other_step os start Goal no (get_env (text "ENTER_ROOT")) _ [] h₂
              (search (root_rules, tt)) k₂
              λ root h₃ k₃.
                other_step os start Goal no (get_env (text "ENTER_DEVICE")) _ [] h₃
                  (search (root_rules, tt)) k₃
                  λ device h₄ k₄.
                    other_step os start Goal no
                      (wrapped _ (act (mkdir_all (join_path (base ∷ text "usr" ∷ [])) 0o755))) _ []
                      h₄ (search (root_rules, tt)) k₄
                      λ u₅ h₅ k₅.
                        other_step os start Goal no
                          (wrapped _ (act (mkdir_all (join_path (base ∷ text ".base" ∷ [])) 0o755)))
                          _ [] h₅ (search (root_rules, tt)) k₅
                          λ u₆ h₆ k₆. pivot_step os start base args root device h₆ k₆
  where
    Goal : Result (Unit {0}) × History → Type 0
    Goal = Switched os start base args

    no : (e : Error) (h : History) → Goal (err e, h)
    no = fails os start base args
