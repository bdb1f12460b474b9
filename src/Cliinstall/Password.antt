-- ===== src/Cliinstall/Password.antt =====
-- `AskPassword` of pkg/cliinstall/ask.go. The loop has fuel for more rounds than there are keys.
pub mod Shadow
pub mod Rounds
use k3os.Base.{
  ℕ, zero, suc, ◌==◌, Option, none, some, List, [], ◌∷◌, ◌++◌, Bool, true, false, not, ◌||◌, is_nil,
  length, if◌then◌else◌,
}
use k3os.Base.Text.{Text, text, ◌=ᵗ◌, is_empty, split, scan_lines}
use k3os.Os.Call.{History, Result, Error, failed, ok, err, read_file, write_file, run, getuid}
use k3os.Os.Io.{Io, pure, defer, act, act_, ask_text, ask_number, ◌>>=◌, ◌>>◌}
use k3os.Config.{CloudConfig, K3os}
use k3os.Util.Mask.{Key, Prompted, answered, unanswered, prompt_password}
use k3os.Cliinstall.Asking as Asking
use k3os.Cliinstall.Asking.{Asking, Terminal, give, by_system}

-- The end of one round, by what the prompt returned; `again` is the next round.
abbrev pub after_prompt :
    (List Key → Result (Text × Terminal) × History)
    → Terminal
    → History
    → Prompted × List Key
    → Result (Text × Terminal) × History
after_prompt again t h (unanswered f, keys) = (err (failed (text "failed to set password")), h)
after_prompt again t h (answered p true, keys) = (ok (p, record t { keys = keys }), h)
after_prompt again t h (answered p false, keys) = again keys

-- `for !ok { pass, ok, err = util.PromptPassword() }`
unfoldable pub password_rounds : ℕ → Asking Text
password_rounds zero t os h = (err (failed (text "out of fuel")), h)
password_rounds (suc fuel) t os h =
    after_prompt (λ keys. password_rounds fuel (record t { keys = keys }) os h) t h
      (prompt_password t.keys)

abbrev pub shadow : Text
shadow = text "/etc/shadow"

abbrev pub second_of : List Text → Option Text
second_of [] = none
second_of (name ∷ []) = none
second_of (name ∷ hash ∷ rest) = if name =ᵗ text "rancher" then some hash else none

abbrev pub or_later : Option Text → Option Text → Option Text
or_later none later = later
or_later (some hash) later = some hash

-- The loop over the lines of the new shadow file
unfoldable pub find_hash : List Text → Option Text
unfolding split ◌=ᵗ◌
find_hash [] = none
find_hash (line ∷ lines) = or_later (second_of (split b':' line)) (find_hash lines)

-- The password is set for a moment, and the hash is read back.
unfoldable pub hash_of : Text → Io (Option Text)
unfolding find_hash scan_lines act ask_text pure ◌>>=◌
hash_of pass = do
  act (run (text "chpasswd" ∷ []) (text "rancher:" ++ pass))
  contents ← ask_text (read_file shadow)
  pure (find_hash (scan_lines contents))

unfoldable pub hash_password : Text → Io (Option Text)
unfolding hash_of defer ask_text act_ ◌>>=◌
hash_password pass = do
  old_shadow ← ask_text (read_file shadow)
  defer (act_ (write_file shadow old_shadow 0o640)) (hash_of pass)

abbrev pub with_password : Option Text → CloudConfig → CloudConfig
with_password none cfg = cfg
with_password (some p) cfg = record cfg { k3os = record cfg.k3os { password = p } }

-- What follows the question
unfoldable pub set_password_in : CloudConfig → Text → Io CloudConfig
unfolding hash_password ask_number pure ◌>>=◌
set_password_in cfg pass = do
  uid ← ask_number getuid
  if not (uid == 0)
      then pure (with_password (some pass) cfg)
      else (do hash ← hash_password pass; pure (with_password hash cfg))

-- `AskPassword`
unfoldable pub ask_password : CloudConfig → Asking CloudConfig
unfolding password_rounds set_password_in by_system
ask_password cfg =
    if not (is_nil cfg.ssh_authorized_keys) || not (is_empty cfg.k3os.password)
    then give cfg
    else λ t.
        Asking.◌>>=◌ (password_rounds (suc (length t.keys)))
          (λ pass. by_system (set_password_in cfg pass)) t
