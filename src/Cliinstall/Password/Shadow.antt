-- ===== src/Cliinstall/Password/Shadow.antt =====
-- `AskPassword` of pkg/cliinstall/ask.go: the shadow file while the hash is computed.
use k3os.Base.{◌≡◌, refl, Option, ◌∷◌}
use k3os.Base.Text.{Text}
use k3os.Os.Call.{Result, ok, err, Os, History, read_file, write_file, getuid}
use k3os.Os.Io.{pure, defer, act_, ask_text, ask_number, ◌>>=◌, continue}
use k3os.Config.{CloudConfig}
use k3os.Cliinstall.Password.{shadow, hash_of, hash_password, with_password, set_password_in}

-- Where the shadow file can be read, `hash_password` writes the old contents last.
hash_password-restores :
    (pass old : Text) (os : Os) (h : History)
    → os.text_of h (read_file shadow) ≡ ok old
    → (hash_password pass os h).1
      ≡ write_file shadow old 0o640 ∷ (hash_of pass os (read_file shadow ∷ h)).1
unfolding hash_password ask_text defer act_ ◌>>=◌
hash_password-restores pass old os h e = rw e refl

-- Setting the password as root leaves the shadow file as it was: if the file can be read, then the
-- last call writes its old contents back, whatever happens between, and whatever is returned.
pub set_password_in-restores :
    (cfg : CloudConfig) (pass old : Text) (os : Os) (h : History)
    → os.number_of h getuid ≡ 0
    → os.text_of (getuid ∷ h) (read_file shadow) ≡ ok old
    → (set_password_in cfg pass os h).1
      ≡ write_file shadow old 0o640 ∷ (hash_of pass os (read_file shadow ∷ getuid ∷ h)).1
unfolding set_password_in ask_number pure ◌>>=◌
set_password_in-restores cfg pass old os h root e = rw root (
    last_call (hash_password pass os (getuid ∷ h))
      (hash_password-restores pass old os (getuid ∷ h) e))
  where
    last_call :
        (r : Result (Option Text) × History)
        → r.1 ≡ write_file shadow old 0o640 ∷ (hash_of pass os (read_file shadow ∷ getuid ∷ h)).1
        → (continue r.0 (λ hash. pure (with_password hash cfg)) os r.1).1
          ≡ write_file shadow old 0o640 ∷ (hash_of pass os (read_file shadow ∷ getuid ∷ h)).1
    last_call (ok hash, h') e = e
    last_call (err f, h') e = e
