-- ===== src/Util/Files.antt =====
-- pkg/util/util.go: files and scripts. Nothing calls `HTTPDownloadToFile` and
-- `HTTPLoadBytes`.
use k3os.Base.{ℕ, Bool, true, false, not, List, [], ◌∷◌, ◌++◌, ◌==◌, if◌then◌else◌}
use k3os.Base.Text.{Text, text, ◌=ᵗ◌}
use k3os.Base.FilePath.{dir_part, file_part}
use k3os.Os.Call.{
  HttpReply, http_get, failed, Result, ok, err, FileInfo, temp_file, write_open, close, chmod,
  rename, remove, stat, mkdir_all, read_file, run,
}
use k3os.Os.Io.{
  lift, ask_http, Io, pure, raise, act, act_, ask_text, ask_info, attempt, defer, ◌>>=◌, ◌>>◌,
}

-- `WriteFileAtomic`
unfoldable pub write_file_atomic : Text → Text → ℕ → Io (Unit {0})
unfolding act act_ ask_text defer ◌>>=◌ dir_part file_part
write_file_atomic filename bytes perm = do
  temp ← ask_text (temp_file (dir_part filename) (text "." ++ file_part filename))
  defer (act_ (remove temp)) (do
    act (write_open temp bytes)
    act (close temp)
    act (chmod temp perm)
    act (rename temp filename))

-- `mode & os.ModePerm != 0`, for the permission bits of a mode
abbrev is_executable_mode : Result FileInfo → Bool
is_executable_mode (err e) = false
is_executable_mode (ok info) = not (info.mode == 0)

-- `ExistsAndExecutable`
unfoldable pub exists_and_executable : Text → Io Bool
unfolding attempt ask_info pure ◌>>=◌
exists_and_executable path = do
  info ← attempt (ask_info (stat path))
  pure (is_executable_mode info)

abbrev script_command : Text → List Text → Text → List Text
script_command path args (c ∷ d ∷ rest) =
    if c ∷ d ∷ [] =ᵗ text "#!" then path ∷ args else text "/bin/sh" ∷ path ∷ []
script_command path args _ = text "/bin/sh" ∷ path ∷ []

run_script_at : Text → List Text → Text → Io (Unit {0})
unfolding act raise ◌=ᵗ◌
run_script_at path args [] = raise (failed (text "EOF"))
run_script_at path args (c ∷ s) = act (run (script_command path args (c ∷ s)) [])

run_if : Bool → Text → List Text → Io (Unit {0})
unfolding ask_text pure ◌>>=◌ run_script_at
run_if false path args = pure tt
run_if true path args = do script ← ask_text (read_file path); run_script_at path args script

-- `RunScript`; the first two bytes of the file tell how to run it, and an empty file is an error
unfoldable pub run_script : Text → List Text → Io (Unit {0})
unfolding exists_and_executable run_if
run_script path args = do runs ← exists_and_executable path; run_if runs path args

abbrev pub directory_or_make : Text → Result FileInfo → Io (Unit {0})
directory_or_make dir (ok info) =
    if info.is_dir then pure tt else raise (failed (dir ++ text " is not a directory"))
directory_or_make dir (err e) = act (mkdir_all dir 0o755)

-- `EnsureDirectoryExists`
unfoldable pub ensure_directory_exists : Text → Io (Unit {0})
unfolding attempt ask_info act raise pure ◌>>=◌
ensure_directory_exists dir = do info ← attempt (ask_info (stat dir)); directory_or_make dir info

-- `HTTPDownloadToFile`; the status of the response is not looked at.
unfoldable pub http_download_to_file : Text → Text → Io (Unit {0})
unfolding ask_http lift write_file_atomic ◌>>=◌
http_download_to_file url dest = do
  reply ← ask_http (http_get url)
  body ← lift reply.body
  write_file_atomic dest body 0o644

abbrev pub body_if_ok : HttpReply → Result Text
body_if_ok r = if r.status == 200 then r.body else err (failed (text "non-200 http response"))

-- `HTTPLoadBytes`
unfoldable pub http_load_bytes : Text → Io Text
unfolding ask_http lift ◌>>=◌
http_load_bytes url = do reply ← ask_http (http_get url); lift (body_if_ok reply)
