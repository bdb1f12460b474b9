-- ===== src/System/Installed/Component.antt =====
-- pkg/system/component.go: what was done before `CopyComponent` returns that it installed a version.
use k3os.Base.{◌≡◌, refl, Bool, true, false, List, [], if◌then◌else◌}
use k3os.Base.Text.{Text, text}
use k3os.Os.Call.{Call, Error, Result, err, FileInfo, Os, History, mount}
use k3os.Os.Io.{pure, lift, act, when, ◌>>◌}
use k3os.Os.Adds.{Adds, adds_rules}
use k3os.Os.Accepted.{Accepted, begun, IsAny, accepted_step, other_step, plain_step}
use k3os.System.Component.{
  VersionName, version_current, component_paths, checked, has_name, stat_component_version,
  install_version, copy_component,
}
use k3os.System.Installed.{
  install_calls, remount_calls, Installed, fails, install_version-Installed,
}

stat_component_version-Adds :
    (root key : Text) (alias : VersionName) → Adds IsAny (stat_component_version root key alias)
unfolding stat_component_version
stat_component_version-Adds root key alias = search (adds_rules, tt) depth 20

-- The calls of an installation of a version, of any name and any temporary directory
abbrev pub IsInstallation : Text → Text → Bool → Text → List Call → Type 0
IsInstallation src dst remount key calls =
    (name : Text) × (dst_temp : Text) × (calls
      ≡ install_calls (component_paths src dst key name) dst_temp (remount_calls remount dst))

module _ (src dst key : Text) (os : Os) (start : History) where
  abbrev Goal : Bool → Result Bool × History → Type 0
  Goal remount = Installed os start (IsInstallation src dst remount key)

  after_remount :
      (remount : Bool) (info : FileInfo) (h : History)
      → Accepted os start [] h
      → Goal remount (
          (when remount (act (mount [] dst (text "none") (text "remount,rw")))
              >> install_version (component_paths src dst key info.name) info)
            os h)
  unfolding when
  after_remount true info h k =
      accepted_step os start (Goal true) (fails os start _)
        (mount [] dst (text "none") (text "remount,rw"))
        (install_version (component_paths src dst key info.name) info) [] h k
        λ k'.
          install_version-Installed os start _ (component_paths src dst key info.name) info
            (remount_calls true dst) _ (λ dst_temp. (info.name, dst_temp, refl)) k'
  after_remount false info h k =
      plain_step os start (Goal false) (fails os start _) (pure tt)
        (install_version (component_paths src dst key info.name) info) [] h (search adds_rules) k
        λ h' k'.
          install_version-Installed os start _ (component_paths src dst key info.name) info
            (remount_calls false dst) h' (λ dst_temp. (info.name, dst_temp, refl)) k'

  named_or_installed :
      (named remount : Bool) (info : FileInfo) (h : History)
      → Accepted os start [] h
      → Goal remount (
          (if named
              then pure false
              else (when remount (act (mount [] dst (text "none") (text "remount,rw")))
                  >> install_version (component_paths src dst key info.name) info))
            os h)
  unfolding pure Installed
  named_or_installed true remount info h k = tt
  named_or_installed false remount info h k = after_remount remount info h k

-- If CopyComponent returns that it installed a version, the system had accepted all calls of the
-- installation in their order: the remount if one was asked for, the link that is prepared, the
-- complete copy, its renaming to the name of the version, and last the switch of the current link.
pub copy_component-Installed :
    (src dst key : Text) (remount : Bool) (os : Os) (start : History)
    → Installed os start
        (IsInstallation src dst remount key)
        (copy_component src dst remount key os start)
unfolding copy_component
copy_component-Installed src dst key remount os start =
    other_step os start Goal no (stat_component_version src key version_current) _ [] start
      (stat_component_version-Adds src key version_current) begun
      λ src_version h₁ k₁.
        other_step os start Goal no (lift (checked src_version)) _ [] h₁ (search adds_rules) k₁
          λ src_info h₂ k₂.
            other_step os start Goal no (stat_component_version dst key version_current) _ [] h₂
              (stat_component_version-Adds dst key version_current) k₂
              λ dst_version h₃ k₃.
                named_or_installed src dst key os start (has_name dst_version src_info.name) remount
                  src_info h₃ k₃
  where
    Goal : Result Bool × History → Type 0
    Goal = Installed os start (IsInstallation src dst remount key)

    no : (e : Error) (h : History) → Goal (err e, h)
    no = fails os start (IsInstallation src dst remount key)
