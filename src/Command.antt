-- ===== src/Command.antt =====
-- pkg/command/command.go
use k3os.Base.{List, [], ◌∷◌, ◌++◌, if◌then◌else◌}
use k3os.Base.Text.{Text, text, has_prefix}
use k3os.Os.Call.{Error, not_exist, failed, Result, ok, err, run}
use k3os.Os.Io.{Io, pure, lift, act, attempt, for_each, ◌>>=◌}

abbrev pub message : Error → Text
message (not_exist m) = m
message (failed m) = m

abbrev pub with_context : Text → Result (Unit {0}) → Result (Unit {0})
with_context context (ok u) = ok u
with_context context (err e) = err (failed (context ++ message e))

unfoldable pub execute_one : Text → Io (Unit {0})
unfolding attempt act lift ◌>>=◌
execute_one cmd = do
  r ← attempt (act (run (text "sh" ∷ text "-c" ∷ cmd ∷ []) []))
  lift (with_context (text "failed to run " ++ (cmd ++ text ": ")) r)

-- `ExecuteCommand`
unfoldable pub execute_command : List Text → Io (Unit {0})
unfolding execute_one for_each
execute_command commands = for_each commands execute_one

-- `SetPassword`
unfoldable pub set_password : Text → Io (Unit {0})
unfolding pure act has_prefix
set_password [] = pure tt
set_password (c ∷ s) = act (
    run (text "chpasswd" ∷ (if has_prefix (c ∷ s) (text "$") then text "-e" ∷ [] else []))
      (text "rancher:" ++ (c ∷ s)))
