-- ===== src/Mode.antt =====
-- pkg/mode/mode.go: the mode that k3OS runs in.
use k3os.Base.{List, [], ◌∷◌}
use k3os.Base.Text.{Text, text, trim_space}
use k3os.Base.FilePath.{join_path}
use k3os.Os.Call.{not_exist, failed, Result, ok, err, read_file}
use k3os.Os.Io.{Io, lift, ask_text, attempt, ◌>>=◌}
use k3os.System.Roots.{state_path}

abbrev mode_of : Result Text → Result Text
mode_of (ok bytes) = ok (trim_space bytes)
mode_of (err (not_exist _)) = ok []
mode_of (err (failed e)) = err (failed e)

-- `Get`
unfoldable pub get_mode : List Text → Io Text
unfolding state_path join_path trim_space attempt ask_text lift ◌>>=◌
get_mode prefix = do
  bytes ←
      attempt
        (ask_text (read_file (join_path (join_path prefix ∷ state_path (text "mode" ∷ []) ∷ []))))
  lift (mode_of bytes)
