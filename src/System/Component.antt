-- ===== src/System/Component.antt =====
-- pkg/system/component.go. Messages to the log are left out.
use k3os.Base.{Bool, true, false, [], ◌∷◌, ◌++◌, if◌then◌else◌}
use k3os.Base.Text.{Text, text, ◌=ᵗ◌}
use k3os.Base.FilePath.{join_path, base_name, dir_part, file_part}
use k3os.Os.Call.{
  Error, failed, Result, ok, err, FileInfo, stat, readlink, temp_dir, mount, symlink, remove,
  remove_all, rename, copy, chmod,
}
use k3os.Os.Io.{
  Io, pure, raise, attempt, lift, defer, act, act_, ask_text, ask_info, when, ◌>>=◌, ◌>>◌,
}

-- `VersionName`
pub data VersionName : Type 0 where
  version_current version_previous : VersionName

abbrev pub version_text : VersionName → Text
version_text version_current = text "current"
version_text version_previous = text "previous"

-- What `StatComponentVersion` returns: `(nil, err)`, `(info, err)` or `(info, nil)`.
pub data Version : Type 0 where
  absent : Error → Version
  not_dir : FileInfo → Error → Version
  found : FileInfo → Version

abbrev not_directory : Text → Error
not_directory path = failed (text "stat " ++ (path ++ text ": not a directory"))

abbrev to_version : Result (Text × FileInfo) → Version
to_version (err e) = absent e
to_version (ok (path, info)) = if info.is_dir then found info else not_dir info (not_directory path)

-- `StatComponentVersion`: de-references the version link of the component
unfoldable pub stat_component_version : Text → Text → VersionName → Io Version
stat_component_version root key alias =
    let alias_path = join_path (root ∷ key ∷ version_text alias ∷ []) in
    do
      looked ← attempt (do
        alias_info ← ask_info (stat alias_path)
        if alias_info.is_dir then pure (tt {0}) else raise (not_directory alias_path)
        version ← ask_text (readlink alias_path)
        let version_path = join_path (root ∷ key ∷ version ∷ [])
        version_info ← ask_info (stat version_path)
        pure (version_path, version_info))
      pure (to_version looked)

-- `srcInfo, err := …; if err != nil { return false, err }`
abbrev pub checked : Version → Result FileInfo
checked (absent e) = err e
checked (not_dir info e) = err e
checked (found info) = ok info

-- `dstInfo, _ := …; dstInfo != nil && dstInfo.Name() == name`
abbrev pub has_name : Version → Text → Bool
has_name (absent e) name = false
has_name (not_dir info e) name = info.name =ᵗ name
has_name (found info) name = info.name =ᵗ name

-- The paths that `CopyComponent` works on.
pub record Paths : Type 0 where
  pub src_path : Text
  pub dst_path : Text
  pub prev_path : Text
  pub curr_path : Text
  pub curr_temp : Text

abbrev pub component_paths : Text → Text → Text → Text → Paths
component_paths src dst key name = record {
  src_path = join_path (src ∷ key ∷ name ∷ []);
  dst_path = join_path (dst ∷ key ∷ name ∷ []);
  prev_path = join_path (dst ∷ key ∷ version_text version_previous ∷ []);
  curr_path = join_path (dst ∷ key ∷ version_text version_current ∷ []);
  curr_temp = join_path (dst ∷ key ∷ version_text version_current ∷ []) ++ text ".tmp";
}

abbrev pub old_path : Text → Text
old_path path = path ++ text ".old"

-- The version directory goes to its place, `previous` becomes what `current` is, and `current`
-- is switched by the rename of the prepared link.
unfoldable pub place_version : Paths → FileInfo → Text → Io Bool
unfolding ◌>>=◌ act act_ pure
place_version p info dst_temp = do
  act (rename dst_temp p.dst_path)
  act_ (chmod p.dst_path info.mode)
  act_ (remove p.prev_path)
  act_ (copy p.curr_path p.prev_path)
  act (rename p.curr_temp p.curr_path)
  pure true

-- If the destination exists: a directory is moved out of the way, and back at the end if its
-- place is free again; a file is removed.
unfoldable pub move_aside : Result FileInfo → Text → Io Bool → Io Bool
unfolding ◌>>=◌ act act_ defer
move_aside (err e) path rest = rest
move_aside (ok info) path rest =
    if info.is_dir
    then act (rename path (old_path path)) >> defer (act_ (rename (old_path path) path)) rest
    else act_ (remove path) >> rest

-- The part of `CopyComponent` after the version check and the remount.
unfoldable pub install_version : Paths → FileInfo → Io Bool
unfolding place_version move_aside attempt ask_text ask_info
install_version p info = do
  act (symlink (base_name p.dst_path) p.curr_temp)
  defer (act_ (remove p.curr_temp)) (do
    dst_temp ← ask_text (temp_dir (dir_part p.dst_path) (file_part p.dst_path))
    defer (act_ (remove_all dst_temp)) (do
      act (copy p.src_path dst_temp)
      existing ← attempt (ask_info (stat p.dst_path))
      move_aside existing p.dst_path (place_version p info dst_temp)))

-- `CopyComponent`
unfoldable pub copy_component : Text → Text → Bool → Text → Io Bool
unfolding when lift pure act ◌>>=◌
copy_component src dst remount key = do
  src_version ← stat_component_version src key version_current
  src_info ← lift (checked src_version)
  dst_version ← stat_component_version dst key version_current
  if has_name dst_version src_info.name then pure false else do
    when remount (act (mount [] dst (text "none") (text "remount,rw")))
    install_version (component_paths src dst key src_info.name) src_info
