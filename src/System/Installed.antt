-- ===== src/System/Installed.antt =====
-- pkg/system/component.go: what was done before a new version is the current one.
pub mod Component
use k3os.Base.{
  ◌≡◌, refl, inl, inr, none, some, Option-cases, Bool, true, false, Bool-cases, List, [], ◌∷◌, ◌++◌,
  if◌then◌else◌,
}
use k3os.Base.Text.{Text, text}
use k3os.Base.FilePath.{base_name, dir_part, file_part}
use k3os.Os.Call.{
  Call, Error, Result, ok, err, FileInfo, Os, History, symlink, temp_dir, copy, rename, chmod,
  remove, remove_all, mount, stat,
}
use k3os.Os.Io.{Io, pure, lift, attempt, defer, act, act_, ask_text, ask_info, when, ◌>>=◌, ◌>>◌}
use k3os.Os.Adds.{Adds, adds_rules}
use k3os.Os.Accepted.{
  Accepted, begun, accepted, another, IsAny, Accepted-append, accepted_step, other_step, plain_step,
  defer_step,
}
use k3os.System.Component.{
  VersionName, version_current, Version, Paths, component_paths, checked, has_name, old_path,
  stat_component_version, place_version, move_aside, install_version, copy_component,
}

-- The version is copied to a directory of its own, which then gets its name, before the link to it
-- becomes that of the current version; the latest call first.
abbrev pub install_calls : Paths → Text → List Call → List Call
install_calls p dst_temp before =
    rename p.curr_temp p.curr_path
    ∷ rename dst_temp p.dst_path
    ∷ copy p.src_path dst_temp
    ∷ symlink (base_name p.dst_path) p.curr_temp
    ∷ before

abbrev pub remount_calls : Bool → Text → List Call
remount_calls remount dst =
    if remount then mount [] dst (text "none") (text "remount,rw") ∷ [] else []

-- The parts of the installation, the last one first
module _ (p : Paths) (info : FileInfo) where
  abbrev copied : Text → Io Bool
  copied dst_temp = attempt (ask_info (stat p.dst_path)) >>= λ existing.
      move_aside existing p.dst_path (place_version p info dst_temp)

  abbrev in_temp : Text → Io Bool
  in_temp dst_temp =
      defer (act_ (remove_all dst_temp)) (act (copy p.src_path dst_temp) >> copied dst_temp)

  abbrev linked : Io Bool
  linked =
      defer (act_ (remove p.curr_temp))
        (ask_text (temp_dir (dir_part p.dst_path) (file_part p.dst_path)) >>= in_temp)

module _ (os : Os) (start : History) (Done : List Call → Type 0) where
  -- If a version was installed, these calls were accepted.
  unfoldable pub Installed : Result Bool × History → Type 0
  Installed (ok true, h) = (calls : List Call) × Done calls × Accepted os start calls h
  Installed (ok false, h) = Unit
  Installed (err e, h) = Unit

  pub fails : (e : Error) (h : History) → Installed (err e, h)
  unfolding Installed
  fails e h = tt

  stable : (r : Result Bool) (h added : History) → Installed (r, h) → Installed (r, added ++ h)
  unfolding Installed
  stable (ok true) h added (calls, done, k) =
      (calls, done, Accepted-append os start calls added h k)
  stable (ok false) h added k = tt
  stable (err e) h added k = tt

  module _ (p : Paths) (info : FileInfo) (dst_temp : Text) (before : List Call)
      (done : Done (install_calls p dst_temp before)) where
    installed :
        (h : History)
        → Accepted os start (install_calls p dst_temp before) h
        → Installed (pure true os h)
    unfolding Installed pure
    installed h k = (install_calls p dst_temp before, done, k)

    place_version-Installed :
        (h : History)
        → Accepted os start
            (copy p.src_path dst_temp ∷ symlink (base_name p.dst_path) p.curr_temp ∷ before)
            h
        → Installed (place_version p info dst_temp os h)
    unfolding place_version
    place_version-Installed h k =
        let switch = act (rename p.curr_temp p.curr_path) >> pure true in
        let save = act_ (copy p.curr_path p.prev_path) >> switch in
        let drop = act_ (remove p.prev_path) >> save in
        accepted_step os start Installed fails (rename dst_temp p.dst_path) _ _ h k λ k₁.
          plain_step os start Installed fails (act_ (chmod p.dst_path info.mode)) drop _ _
            (search adds_rules) k₁
            λ h₂ k₂.
              plain_step os start Installed fails (act_ (remove p.prev_path)) save _ h₂
                (search (adds_rules, tt)) k₂
                λ h₃ k₃.
                  plain_step os start Installed fails (act_ (copy p.curr_path p.prev_path)) switch _
                    h₃ (search (adds_rules, tt)) k₃
                    λ h₄ k₄.
                      accepted_step os start Installed fails (rename p.curr_temp p.curr_path)
                        (pure true) _ h₄ k₄ (installed _)

    move_aside-Installed :
        (existing : Result FileInfo) (h : History)
        → Accepted os start
            (copy p.src_path dst_temp ∷ symlink (base_name p.dst_path) p.curr_temp ∷ before)
            h
        → Installed (move_aside existing p.dst_path (place_version p info dst_temp) os h)
    unfolding move_aside
    move_aside-Installed (err e) h k = place_version-Installed h k
    move_aside-Installed (ok found) h k = aside found.is_dir
      where
        rest : Io Bool
        rest = place_version p info dst_temp

        aside :
            (is_dir : Bool)
            → Installed (
                (if is_dir
                    then act (rename p.dst_path (old_path p.dst_path))
                      >> defer (act_ (rename (old_path p.dst_path) p.dst_path)) rest
                    else act_ (remove p.dst_path) >> rest)
                  os h)
        aside true =
            plain_step os start Installed fails (act (rename p.dst_path (old_path p.dst_path))) _ _
              h (search (adds_rules, tt)) k
              λ h' k'.
                defer_step os start Installed fails (act_ (rename (old_path p.dst_path) p.dst_path))
                  rest h' (search (adds_rules, tt)) stable (place_version-Installed h' k')
        aside false =
            plain_step os start Installed fails (act_ (remove p.dst_path)) rest _ h
              (search (adds_rules, tt)) k place_version-Installed

  pub install_version-Installed :
      (p : Paths) (info : FileInfo) (before : List Call) (h : History)
      → ((dst_temp : Text) → Done (install_calls p dst_temp before))
      → Accepted os start before h
      → Installed (install_version p info os h)
  unfolding install_version
  install_version-Installed p info before h done k =
      accepted_step os start Installed fails (symlink (base_name p.dst_path) p.curr_temp)
        (linked p info) before h k
        λ k₁.
          defer_step os start Installed fails (act_ (remove p.curr_temp))
            (ask_text (temp_dir (dir_part p.dst_path) (file_part p.dst_path)) >>= in_temp p info)
            (symlink (base_name p.dst_path) p.curr_temp ∷ h) (search (adds_rules, tt)) stable
            (other_step os start Installed fails
              (ask_text (temp_dir (dir_part p.dst_path) (file_part p.dst_path))) (in_temp p info) _
              _ (search (adds_rules, tt)) k₁
              λ dst_temp h₂ k₂.
                defer_step os start Installed fails (act_ (remove_all dst_temp))
                  (act (copy p.src_path dst_temp) >> copied p info dst_temp) h₂
                  (search (adds_rules, tt)) stable
                  (accepted_step os start Installed fails (copy p.src_path dst_temp)
                    (copied p info dst_temp) _ h₂ k₂
                    λ k₃.
                      other_step os start Installed fails (attempt (ask_info (stat p.dst_path)))
                        (λ existing. move_aside existing p.dst_path (place_version p info dst_temp))
                        _ _ (search (adds_rules, tt)) k₃
                        λ existing h₄ k₄.
                          move_aside-Installed p info dst_temp before (done dst_temp) existing h₄
                            k₄))
