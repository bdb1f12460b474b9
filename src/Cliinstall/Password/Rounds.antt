-- ===== src/Cliinstall/Password/Rounds.antt =====
-- `AskPassword` of pkg/cliinstall/ask.go: the end of the loop that asks for the password.
use k3os.Base.{ℕ, zero, suc, ◌<◌, ◌≡◌, refl, List, true, false, length, arith}
use k3os.Base.Text.{Text, text}
use k3os.Os.Call.{failed, Result, ok, err, Os, History}
use k3os.Util.Mask.{Key, Failure, Prompted, answered, unanswered, prompt_password}
use k3os.Util.Mask.Progress.{prompt_password-lt}
use k3os.Cliinstall.Asking.{Terminal}
use k3os.Cliinstall.Password.{after_prompt, password_rounds}

-- What the loop returns: the first password that is confirmed, or an error.
pub data Rounds (lines : List Text) : List Key → Result (Text × Terminal) → Type 0 where
  stopped :
      {keys rest : List Key} {f : Failure}
      → prompt_password keys ≡ (unanswered f, rest)
      → Rounds lines keys (err (failed (text "failed to set password")))
  confirmed :
      {keys rest : List Key} {p : Text}
      → prompt_password keys ≡ (answered p true, rest)
      → Rounds lines keys (ok (p, record { lines = lines; keys = rest }))
  again :
      {keys rest : List Key} {p : Text} {r : Result (Text × Terminal)}
      → prompt_password keys ≡ (answered p false, rest)
      → Rounds lines rest r
      → Rounds lines keys r

-- Within its fuel the loop ends with the first password that was typed twice alike, or with an error
-- where a prompt fails before; it makes no call of the system, and reads no line.
pub password_rounds-Rounds :
    (fuel : ℕ) (lines : List Text) (keys : List Key) (os : Os) (h : History)
    → length keys < fuel
    → Rounds lines keys (password_rounds fuel (record { lines = lines; keys = keys }) os h).0
      × ((password_rounds fuel (record { lines = lines; keys = keys }) os h).1 ≡ h)
unfolding password_rounds
password_rounds-Rounds zero lines keys os h l = absurd (omega arith)
password_rounds-Rounds (suc fuel) lines keys os h l =
    by_prompt (λ rest. password_rounds fuel (record { lines = lines; keys = rest }) os h)
      (λ rest. password_rounds-Rounds fuel lines rest os h) (prompt_password keys) refl
  where
    by_prompt :
        (next : List Key → Result (Text × Terminal) × History)
        → ((rest : List Key)
            → length rest < fuel
            → Rounds lines rest (next rest).0 × ((next rest).1 ≡ h))
        → (r : Prompted × List Key) → prompt_password keys ≡ r
        → Rounds lines keys (after_prompt next (record { lines = lines; keys = keys }) h r).0
          × ((after_prompt next (record { lines = lines; keys = keys }) h r).1 ≡ h)
    by_prompt next ih (unanswered f, rest) e = (stopped e, refl)
    by_prompt next ih (answered p true, rest) e = (confirmed e, refl)
    by_prompt next ih (answered p false, rest) e =
        let less = prompt_password-lt p false keys rest e in
        let (rounds, quiet) = ih rest (omega arith) in (again e rounds, quiet)
