-- ===== src/Cliinstall/Ask/Server.antt =====
-- `AskServerAgent` of pkg/cliinstall/ask.go: what a server and what an agent is given.
use k3os.Base.{◌≡◌, Bool, false, ◌⊎◌}
use k3os.Base.Text.{Text, is_empty}
use k3os.Os.Call.{Result, ok, err, Os}
use k3os.Config.{CloudConfig}
use k3os.Cliinstall.Asking.{Terminal}

abbrev pub with_token : Text → CloudConfig → CloudConfig
with_token token cfg = record cfg { k3os = record cfg.k3os { token = token } }

abbrev pub with_url : Text → CloudConfig → CloudConfig
with_url url cfg = record cfg { k3os = record cfg.k3os { server_url = url } }

-- The program returns a configuration with the property, or an error.
abbrev pub Gives : (CloudConfig → Type 0) → Result (CloudConfig × Terminal) → Type 0
Gives P (ok (cfg, t)) = P cfg
Gives P (err e) = Unit

-- The configuration has a token, which for an agent is not empty.
abbrev pub IsTokenOf : Bool → CloudConfig → CloudConfig → Type 0
IsTokenOf server cfg cfg' =
    (token : Text) × (cfg' ≡ with_token token cfg) × ((server ≡ false) → is_empty token ≡ false)

-- A server has no URL of a server and may have no token; an agent has both.
abbrev pub IsServerOrAgent : CloudConfig → CloudConfig → Type 0
IsServerOrAgent cfg cfg' =
    (token : Text) × ((cfg' ≡ with_token token cfg)
      ⊎ ((url : Text) × (cfg' ≡ with_token token (with_url url cfg))
          × (is_empty url ≡ false)
          × (is_empty token ≡ false)))
