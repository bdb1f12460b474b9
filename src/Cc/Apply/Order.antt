-- ===== src/Cc/Apply/Order.antt =====
-- pkg/cc/apply.go: which appliers a phase runs, and which errors it reports.
use k3os.Base.{◌≡◌, refl, List, [], ◌∷◌}
use k3os.Os.Call.{Error, ok, err, Result, Os, History}
use k3os.Os.Io.{pure, attempt, ◌>>=◌}
use k3os.Config.{CloudConfig}
use k3os.Cc.Apply.{Applier, run_applies}

-- `Runs cfg os appliers h errors h'`: from `h` each applier is run once, from what the one before it
-- left, up to `h'`; the errors are those of the appliers that failed.
pub data Runs (cfg : CloudConfig) (os : Os)
    : List Applier → History → List Error → History → Type 0 where
  ended : (h : History) → Runs cfg os [] h [] h
  succeeded :
      (a : Applier) (appliers : List Applier) (h h₁ h' : History) (errors : List Error)
      → a cfg os h ≡ (ok tt, h₁)
      → Runs cfg os appliers h₁ errors h'
      → Runs cfg os (a ∷ appliers) h errors h'
  failed :
      (a : Applier) (appliers : List Applier) (h h₁ h' : History) (e : Error) (errors : List Error)
      → a cfg os h ≡ (err e, h₁)
      → Runs cfg os appliers h₁ errors h'
      → Runs cfg os (a ∷ appliers) h (e ∷ errors) h'

module _ (cfg : CloudConfig) (os : Os) where
  -- The phase returns these errors, and has run the appliers.
  abbrev pub Reports : List Applier → History → Result (List Error) × History → Type 0
  Reports appliers h r =
      (errors : List Error) × (h' : History) × (r ≡ (ok errors, h'))
      × Runs cfg os appliers h errors h'

  next-Reports :
      (a : Applier) (appliers : List Applier) (h : History) (r : Result (Unit {0}) × History)
      → a cfg os h ≡ r
      → Reports appliers r.1 (run_applies cfg appliers os r.1)
      → Reports (a ∷ appliers) h (run_applies cfg (a ∷ appliers) os h)
  unfolding run_applies pure attempt ◌>>=◌
  next-Reports a appliers h (ok u, h₁) e (errors, h', e', k) =
      (errors, h', rw (e, e') refl, succeeded a appliers h h₁ h' errors e k)
  next-Reports a appliers h (err error, h₁) e (errors, h', e', k) =
      (error ∷ errors, h', rw (e, e') refl, failed a appliers h h₁ h' error errors e k)

  -- A phase returns no error of its own: it runs every applier once and in order, whatever those before
  -- it returned, and its result is the list of the errors of those that failed, in that order.
  pub run_applies-Reports :
      (appliers : List Applier) (h : History) → Reports appliers h (run_applies cfg appliers os h)
  unfolding run_applies pure
  run_applies-Reports [] h = ([], h, refl, ended h)
  run_applies-Reports (a ∷ appliers) h =
      next-Reports a appliers h (a cfg os h) refl (run_applies-Reports appliers (a cfg os h).1)
