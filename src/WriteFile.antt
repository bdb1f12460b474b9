-- ===== src/WriteFile.antt =====
-- pkg/writefile/writefile.go
pub mod Total
pub mod Placed
use k3os.Base.{List, [], ◌∷◌, ◌++◌, if◌then◌else◌, true, false}
use k3os.Base.Text.{Text, text, is_empty}
use k3os.Base.FilePath.{join_path, dir_name}
use k3os.Os.Call.{failed, Result, ok, err, temp_file, write_file, close, chmod, rename, run}
use k3os.Os.Io.{Io, pure, raise, lift, attempt, act, ask_text, for_each, when, ◌>>=◌, ◌>>◌}
use k3os.Util.Decode.{Codec, decode_content}
use k3os.Util.Files.{ensure_directory_exists}
use k3os.Config.{File}
use k3os.Config.Permissions.{permissions}

unfoldable pub write_decoded : File → Text → Io Text
unfolding act ask_text lift when pure ◌>>=◌ permissions dir_name join_path ensure_directory_exists
write_decoded f root = do
  let p = join_path (root ∷ f.path ∷ [])
  let d = dir_name p
  ensure_directory_exists d
  perm ← lift (permissions f.raw_file_permissions)
  temp ← ask_text (temp_file d (text "wfs-temp"))
  act (write_file temp f.content perm)
  act (close temp)
  act (chmod temp perm)
  when (if is_empty f.owner then false else true)
      (act (run (text "chown" ∷ f.owner ∷ temp ∷ []) []))
  act (rename temp p)
  pure p

-- `WriteFile`
unfoldable pub write_file_at : File → Text → Io Text
unfolding raise write_decoded
write_file_at f root =
    if is_empty f.encoding
    then write_decoded f root
    else raise (failed (text "unable to write file with encoding " ++ f.encoding))

-- `WriteFiles`: a file that cannot be decoded or written is logged, and the next one comes.
module _ (codec : Codec) where
  abbrev pub write_content : File → Result Text → Io (Unit {0})
  write_content f (err e) = pure tt
  write_content f (ok content) =
      attempt (write_file_at (record f { content = content; encoding = [] }) (text "/")) >>= λ _.
      pure tt

  unfoldable pub write_files : List File → Io (Unit {0})
  unfolding for_each pure attempt ◌>>=◌ write_file_at decode_content
  write_files files =
      for_each files λ f. write_content f (decode_content codec f.content f.encoding)
