-- ===== src/Upgrade/Idle.antt =====
-- pkg/cli/upgrade/upgrade.go: `Run` after the copies, if nothing was copied.
use k3os.Base.{◌≡◌, false, ◌∷◌}
use k3os.Os.Call.{History, Result, ok, Os, unflock, close}
use k3os.Os.Io.{pure, when, act_, ◌>>=◌, continue}
use k3os.Upgrade.{Flags, Progress, finish, upgrade_all, locked_part}

finish-idle :
    (f : Flags) (s : Progress) (os : Os) (h : History)
    → s.copied ≡ false
    → finish f s os h ≡ (ok tt, h)
unfolding finish when pure ◌>>=◌
finish-idle f s os h idle = rw idle

pub after_copies :
    (f : Flags) (r : Result Progress) (s : Progress) (os : Os) (h : History)
    → r ≡ ok s
    → s.copied ≡ false
    → continue r
        (λ p. finish f p >>= λ _. act_ (unflock f.lock_file) >>= λ _. act_ (close f.lock_file))
        os
        h
      ≡ (ok tt, close f.lock_file ∷ unflock f.lock_file ∷ h)
unfolding ◌>>=◌ act_
after_copies f r s os h e idle = rw (e, finish-idle f s os h idle)

-- An upgrade that copied no component neither syncs nor reboots, whatever its flags: after the
-- copies, the failed ones included, it only lets go of its lock, and it returns without an error.
pub locked_part-idle :
    (f : Flags) (s : Progress) (os : Os) (h : History)
    → (upgrade_all f os h).0 ≡ ok s
    → s.copied ≡ false
    → locked_part f os h ≡ (ok tt, close f.lock_file ∷ unflock f.lock_file ∷ (upgrade_all f os h).1)
unfolding locked_part ◌>>=◌
locked_part-idle f s os h e idle =
    after_copies f (upgrade_all f os h).0 s os (upgrade_all f os h).1 e idle
