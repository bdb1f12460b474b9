-- ===== src/Tests/Installation.antt =====
-- Upgrades, the image in the program's file, and the replacement of a file.
use k3os.Base.{false, ◌≡◌, ◌≢◌, refl, subst, ◌∙◌, arith, ◌+◌, true, List, [], ◌∷◌}
use k3os.Base.Text.{Text, text, ◌=ᵗ◌, has_prefix, to_lower}
use k3os.Base.FilePath.{join_path}
use k3os.Os.Call.{ok, FileInfo}
use k3os.Os.Io.{◌>>=◌, pure, act, lift, attempt, ask_info, ask_text}
use k3os.System.Component.{component_paths, copy_component, stat_component_version, install_version}
use k3os.System.Switch.{AreApart, IsFreshTemp, changed, gain}
use k3os.System.Upgrading.{copy_component-changed}
use k3os.System.Installed.{Installed}
use k3os.System.Installed.Component.{IsInstallation, copy_component-Installed}
use k3os.Upgrade.Order.{Ordered, run_upgrade-Ordered}
use k3os.Upgrade.{Progress, upgrade_all, run_upgrade}
use k3os.Upgrade.Copies.{Leads, wanted_keys, upgrade_all-Leads}
use k3os.Enterchroot.Image.{magic, FileRead, chunk, image_at, not_found, in_file}
use k3os.Enterchroot.Image.Sound.{Holds, in_file-Holds}
use k3os.Enterchroot.Image.Complete.{in_file-found, in_file-missed, chunks_of}
use k3os.Tests.Data.{differ, broken_system, fresh_system, version_dir, flags}

abbrev current_link : Text
current_link = text "/dst/k3s/current"

abbrev v2_paths : AreApart (component_paths (text "/src") (text "/dst") (text "k3s") (text "v2"))
v2_paths = record {
  dst_curr = differ _ _ (unfold ◌=ᵗ◌ join_path in refl);
  old_curr = differ _ _ (unfold ◌=ᵗ◌ join_path in refl);
  prev_curr = differ _ _ (unfold ◌=ᵗ◌ join_path in refl);
  temp_curr = differ _ _ (unfold ◌=ᵗ◌ join_path in refl);
}

ok_injective {ℓ} : {A : Type ℓ} (a b : A) → ok a ≡ ok b → a ≡ b
ok_injective a b e = ground arith

temp_fresh : (path : Text) → text "/tmp/1" ≢ path → IsFreshTemp fresh_system path
temp_fresh path ne h dir pattern_ name e k = ne (ok_injective _ _ e ∙ k)

abbrev Apart : FileInfo → Type 0
Apart info = AreApart (component_paths (text "/src") (text "/dst") (text "k3s") info.name)

info-Apart : (info : FileInfo) → ok version_dir ≡ ok info → Apart info
info-Apart info e = subst Apart (ok_injective version_dir info e) v2_paths

-- The run copies version v2 and reports it.
copied : (copy_component (text "/src") (text "/dst") true (text "k3s") fresh_system []).0 ≡ ok true
unfolding copy_component ◌>>=◌ pure act lift stat_component_version attempt ask_info ask_text
    has_prefix join_path install_version
copied = refl

copy_component-changed_example :
    changed fresh_system current_link
      (copy_component (text "/src") (text "/dst") true (text "k3s") fresh_system []).1
    ≡ gain (copy_component (text "/src") (text "/dst") true (text "k3s") fresh_system []).0
      + changed fresh_system current_link []
unfolding join_path
copy_component-changed_example =
    copy_component-changed fresh_system (text "/src") (text "/dst") (text "k3s")
      (temp_fresh current_link (differ _ _ (unfold ◌=ᵗ◌ in refl)))
      (λ h h' version info e k. info-Apart info k) true []

abbrev cut_file : List FileRead
cut_file = chunk (text "ELF_SQ") ∷ chunk (text "_sqmag") ∷ chunk (text "ic_hsqs") ∷ []

cut_file_found : in_file cut_file ≡ image_at 15
unfolding in_file
cut_file_found = refl

in_file-Holds_example : Holds (to_lower magic) (text "ELF_SQ_sqmagic_hsqs") 15
in_file-Holds_example = in_file-Holds cut_file 15 cut_file_found

in_file-found_example : in_file (chunks_of (text "ELF_sq" ∷ text "magic_hsqs" ∷ [])) ≡ image_at 12
in_file-found_example =
    in_file-found (text "ELF_sq" ∷ text "magic_hsqs" ∷ []) (text "ELF") (text "hsqs")
      (unfold to_lower in refl) (refl, (refl, (refl, tt)))

in_file-missed_example : in_file (chunks_of (text "ELF__sq" ∷ text "magic_hsqs" ∷ [])) ≡ not_found
in_file-missed_example =
    in_file-missed (text "ELF__sq" ∷ text "magic_hsqs" ∷ []) (text "ELF") (text "hsqs")
      (unfold to_lower in refl) (refl, (refl, (refl, tt))) (refl, (refl, (refl, (refl, tt))))

upgrade_all-Leads_example :
    Leads flags fresh_system (wanted_keys flags) false [] (upgrade_all flags fresh_system [])
upgrade_all-Leads_example = upgrade_all-Leads flags fresh_system []

abbrev idle : Progress
idle = record { copied = false; remount = true }

copies_fail : (upgrade_all flags broken_system []).0 ≡ ok idle
unfolding upgrade_all copy_component stat_component_version ask_info ask_text has_prefix join_path
copies_fail = refl

copy_component-Installed_example :
    Installed fresh_system []
      (IsInstallation (text "/src") (text "/dst") true (text "k3s"))
      (copy_component (text "/src") (text "/dst") true (text "k3s") fresh_system [])
copy_component-Installed_example =
    copy_component-Installed (text "/src") (text "/dst") (text "k3s") true fresh_system []

run_upgrade-Ordered_example : Ordered flags fresh_system [] (run_upgrade flags fresh_system []).1
run_upgrade-Ordered_example = run_upgrade-Ordered flags fresh_system []
