-- ===== src/Cliinstall/Wifi.antt =====
-- `AskWifi` of pkg/cliinstall/ask.go. The loop has fuel for more rounds than there are lines.
pub mod Rounds
use k3os.Base.{
  ℕ, zero, suc, List, [], ◌∷◌, ◌++◌, Bool, true, false, not, is_nil, length, if◌then◌else◌,
}
use k3os.Base.Text.{Text, text}
use k3os.Os.Call.{failed}
use k3os.Config.{CloudConfig, K3os, Wifi}
use k3os.Questions.{prompt, prompt_bool}
use k3os.Cliinstall.Asking.{Asking, Terminal, give, fail, ask, ◌>>=◌}

abbrev pub add_wifi : Text → Text → CloudConfig → CloudConfig
add_wifi name pass cfg = record cfg {
  k3os = record cfg.k3os { wifi = cfg.k3os.wifi ++ record { name = name; passphrase = pass } ∷ [] };
}

abbrev pub if_more : Bool → Asking CloudConfig → CloudConfig → Asking CloudConfig
if_more true again cfg = again
if_more false again cfg = give cfg

unfoldable pub wifi_rounds : ℕ → CloudConfig → Asking CloudConfig
unfolding give fail ask ◌>>=◌
wifi_rounds zero cfg = fail (failed (text "out of fuel"))
wifi_rounds (suc fuel) cfg = do
  name ← ask (prompt [])
  pass ← ask (prompt [])
  more ← ask (prompt_bool false)
  if_more more (wifi_rounds fuel (add_wifi name pass cfg)) (add_wifi name pass cfg)

-- `AskWifi`
unfoldable pub ask_wifi : CloudConfig → Asking CloudConfig
unfolding give ask ◌>>=◌ wifi_rounds
ask_wifi cfg = if not (is_nil cfg.k3os.wifi) then give cfg else do
  wanted ← ask (prompt_bool false)
  if not wanted then give cfg else λ t. wifi_rounds (suc (length t.lines)) cfg t
