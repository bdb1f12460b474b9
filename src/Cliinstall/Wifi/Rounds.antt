-- ===== src/Cliinstall/Wifi/Rounds.antt =====
-- `AskWifi` of pkg/cliinstall/ask.go: the end of the loop that asks for networks.
use k3os.Base.{ℕ, zero, suc, ◌<◌, ◌≡◌, refl, List, [], true, false, length, arith, inl, inr}
use k3os.Base.Text.{Text, text}
use k3os.Os.Call.{failed, Result, ok, err, Os, History}
use k3os.Config.{CloudConfig}
use k3os.Util.Mask.{Key}
use k3os.Questions.{answer, prompt, prompt_bool}
use k3os.Questions.Progress.{
  Answer-cases, prompt_answer, prompt_bool-lt, prompt-fuel, prompt_bool-fuel,
}
use k3os.Cliinstall.Asking.{Terminal, ask, give, ◌>>=◌}
use k3os.Cliinstall.Wifi.{add_wifi, wifi_rounds}

-- What the loop returns: the networks that were named, each with a name and a passphrase, or an
-- error where the lines end before.
pub data Rounds (keys : List Key)
    : List Text → CloudConfig → Result (CloudConfig × Terminal) → Type 0 where
  stopped :
      {lines : List Text} {cfg : CloudConfig} → Rounds keys lines cfg (err (failed (text "EOF")))
  last :
      {lines l₁ l₂ rest : List Text} {cfg : CloudConfig} {name pass : Text}
      → prompt [] lines ≡ answer name l₁
      → prompt [] l₁ ≡ answer pass l₂
      → prompt_bool false l₂ ≡ answer false rest
      → Rounds keys lines cfg (ok (add_wifi name pass cfg, record { lines = rest; keys = keys }))
  more :
      {lines l₁ l₂ rest : List Text} {cfg : CloudConfig} {name pass : Text}
      {r : Result (CloudConfig × Terminal)}
      → prompt [] lines ≡ answer name l₁
      → prompt [] l₁ ≡ answer pass l₂
      → prompt_bool false l₂ ≡ answer true rest
      → Rounds keys rest (add_wifi name pass cfg) r
      → Rounds keys lines cfg r

-- Within its fuel the loop ends: with the networks that were named, of which each has a name and a
-- passphrase, up to the first answer that wants no other; or with an error where the lines end
-- before. It makes no call of the system, and reads no key.
pub wifi_rounds-Rounds :
    (fuel : ℕ) (cfg : CloudConfig) (lines : List Text) (keys : List Key) (os : Os) (h : History)
    → length lines < fuel
    → Rounds keys lines cfg (wifi_rounds fuel cfg (record { lines = lines; keys = keys }) os h).0
      × ((wifi_rounds fuel cfg (record { lines = lines; keys = keys }) os h).1 ≡ h)
unfolding wifi_rounds ◌>>=◌ ask give
wifi_rounds-Rounds zero cfg lines keys os h l = absurd (omega arith)
wifi_rounds-Rounds (suc fuel) cfg lines keys os h l = elim (Answer-cases (prompt [] lines)) [
  | inr (inr lost) ↦ absurd (prompt-fuel [] lines lost)
  | inr (inl ended) ↦ rw ended (stopped, refl)
  | inl (name, l₁, e₁) ↦ elim (Answer-cases (prompt [] l₁)) [
    | inr (inr lost) ↦ absurd (prompt-fuel [] l₁ lost)
    | inr (inl ended) ↦ rw (e₁, ended) (stopped, refl)
    | inl (pass, l₂, e₂) ↦ elim (Answer-cases (prompt_bool false l₂)) [
      | inr (inr lost) ↦ absurd (prompt_bool-fuel false l₂ lost)
      | inr (inl ended) ↦ rw (e₁, e₂, ended) (stopped, refl)
      | inl (false, rest, e₃) ↦ rw (e₁, e₂, e₃) (last e₁ e₂ e₃, refl)
      | inl (true, rest, e₃) ↦
          let less₁ = (prompt_answer [] lines l₁ name e₁).1 in
          let less₂ = (prompt_answer [] l₁ l₂ pass e₂).1 in
          let less₃ = prompt_bool-lt false true l₂ rest e₃ in
          let (rounds, quiet) =
            wifi_rounds-Rounds fuel (add_wifi name pass cfg) rest keys os h (omega arith) in
          rw (e₁, e₂, e₃) (more e₁ e₂ e₃ rounds, quiet)
    ]
  ]
]
