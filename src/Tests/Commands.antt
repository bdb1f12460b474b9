-- ===== src/Tests/Commands.antt =====
-- The start of the boot, enter-root, the sub-commands, and files that are written.
use k3os.Base.{◌≡◌, refl, ◌⊎◌, true, false, map, List, [], ◌∷◌}
use mathlib.Core.List.Perm
use k3os.Base.Text.{Text, text, scan_lines}
use k3os.Base.FilePath.{join_path}
use k3os.Os.Call.{failed, err, ok, Os, History, FileInfo}
use k3os.Config.{File, K3os, StringMap}
use k3os.Config.UserData.{empty_k3os}
use k3os.Cc.K3s.{apply_k3s}
use k3os.Cc.K3s.Labels.{apply_k3s-Perm}
use k3os.Upgrade.{Flags, run_upgrade}
use k3os.Cli.App.{Values, upgrade_command}
use k3os.Cli.App.Checks.{IsReady, full, upgrade_command-IsReady}
use k3os.Enterchroot.Start.{start_at, finished}
use k3os.Enterchroot.Start.Detached.{Detached, Replaced, start_at-Detached}
use k3os.Enterchroot.Root.{run_root}
use k3os.Enterchroot.Root.Switching.{Switched}
use k3os.Enterchroot.Root.Order.{run_root-Switched}
use k3os.Hostname.Hosts.{rewrite_hosts}
use k3os.Hostname.Lines.{new_line, scan_lines-rewrite_hosts}
use k3os.WriteFile.{write_decoded}
use k3os.WriteFile.Placed.{Outcome, write_decoded-Outcome}
use k3os.Tests.Data.{fresh_system, version_dir, flags}

abbrev rootfs : Flags
rootfs = record flags { upgrade_k3os = false; upgrade_k3s = false; upgrade_root_fs = true }

upgrade_command-IsReady_example :
    ((os : Os) (h : History)
      → upgrade_command rootfs os h ≡ (err (failed (text "exit status 1")), h))
    ⊎ (IsReady (full rootfs) × (upgrade_command rootfs ≡ run_upgrade (full rootfs)))
upgrade_command-IsReady_example = upgrade_command-IsReady rootfs

abbrev values : Values
values = record { switched = λ name. false; written = λ name. text "/src" }

-- The second process of a system, which starts enter-root and waits for it
abbrev second_process : Os
second_process = record fresh_system {
  number_of = λ h c. 2;
  text_of = λ h c. ok (text "/dev/loop0");
}

abbrev image_file : FileInfo
image_file = record version_dir { is_dir = false; mode = 0o644 }

abbrev boot_args : List Text
boot_args = text "/init" ∷ text "k3os.debug" ∷ []

start_at-Detached_example :
    Detached
      (text "/init")
      (text "/init")
      []
      finished
      second_process
      (text "/dev/loop0")
      (start_at
        (text "/init")
        (text "/init")
        []
        finished
        (text "/init", 4096)
        image_file
        boot_args
        second_process
        []).1
    ⊎ Replaced
        (text "/init")
        (text "/init")
        []
        finished
        second_process
        boot_args
        (start_at
          (text "/init")
          (text "/init")
          []
          finished
          (text "/init", 4096)
          image_file
          boot_args
          second_process
          []).1
start_at-Detached_example =
    start_at-Detached (text "/init") (text "/init") [] finished second_process (text "/init")
      (text "/dev/loop0") 4096 image_file boot_args [] refl refl

abbrev motd : File
motd = record {
  encoding = [];
  content = text "welcome";
  owner = text "rancher";
  path = text "/etc/motd";
  raw_file_permissions = text "0644";
}

write_decoded-Outcome_example :
    Outcome motd
      (join_path (text "/" ∷ text "/etc/motd" ∷ []))
      fresh_system
      []
      (write_decoded motd (text "/") fresh_system [])
write_decoded-Outcome_example = write_decoded-Outcome motd (text "/") fresh_system []

run_root-Switched_example :
    Switched fresh_system []
      (text "/run/k3os/data")
      boot_args
      (run_root (text "/run/k3os/data") boot_args fresh_system [])
run_root-Switched_example = run_root-Switched (text "/run/k3os/data") boot_args fresh_system []

scan_lines-rewrite_hosts_example :
    scan_lines
      (rewrite_hosts (text "node") (scan_lines (text "127.0.0.1 localhost\n127.0.1.1 old\n")))
    ≡ map (new_line (text "node")) (scan_lines (text "127.0.0.1 localhost\n127.0.1.1 old\n"))
scan_lines-rewrite_hosts_example =
    scan_lines-rewrite_hosts (text "node") (refl, (refl, (refl, (refl, tt)))) refl
      (text "127.0.0.1 localhost\n127.0.1.1 old\n")

abbrev two_labels : K3os
two_labels = record empty_k3os {
  labels = (text "region", text "west") ∷ (text "disk", text "ssd") ∷ [];
}

abbrev visited_otherwise : StringMap
visited_otherwise = (text "disk", text "ssd") ∷ (text "region", text "west") ∷ []

apply_k3s-Perm_example :
    apply_k3s (text "v0.9.0") two_labels true false
    ≡ apply_k3s (text "v0.9.0") (record two_labels { labels = visited_otherwise }) true false
apply_k3s-Perm_example =
    apply_k3s-Perm (text "v0.9.0") two_labels visited_otherwise true false
      (Perm.swap (text "disk", text "ssd") (text "region", text "west") [])
