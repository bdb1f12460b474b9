-- ===== src/Tests/Installer.antt =====
-- The installer, and the transfer of the root.
use k3os.Base.{◌⊎◌, ◌≡◌, refl, Option, none, some, List, [], ◌∷◌, ◌++◌}
use k3os.Base.Text.{Text, text, ◌=ᵗ◌}
use k3os.Base.Number.{pos}
use k3os.Base.FilePath.{join_path}
use k3os.Os.Call.{
  Call, Error, failed, ok, err, Os, History, getuid, read_file, write_file, open_write,
}
use k3os.Os.Io.{pure, act, lift, when, ask_int, ◌>>=◌, ◌>>◌}
use k3os.Os.Adds.{Since, adds_rules}
use k3os.Config.{CloudConfig}
use k3os.Config.UserData.{empty_config, empty_k3os, empty_install}
use k3os.Util.Mask.{Key, byte}
use k3os.Cliinstall.Asking.{Terminal}
use k3os.Cliinstall.Password.{shadow, hash_of, set_password_in}
use k3os.Cliinstall.Password.Shadow.{set_password_in-restores}
use k3os.Cliinstall.Files.{install_from}
use k3os.Cliinstall.Install.Confirmed.{Failed, Started, install_from-Started}
use k3os.Transferroot.{
  copy_metadata, Walk, Node, regular, directory, fill_root, copy_fs, visit_node, visit_directory,
  make_directory, move_node, move_as,
}
use k3os.Transferroot.Kept.{IsWalk, IsKept, copy_fs-IsKept}
use k3os.Transferroot.Moved.{RemovesNothing, Copied, visit_node-Copied}
use k3os.Tests.Data.{fresh_system}
use k3os.Tests.Configuration.{plain_mapper}

-- A password that is typed twice alike, the second try; and lines for an agent.
abbrev keys : List Key
keys = byte b'a' ∷ byte 13 ∷ byte b'b' ∷ byte 13 ∷ byte b'a' ∷ byte 13 ∷ byte b'a' ∷ byte 13 ∷ []

abbrev terminal : Terminal
terminal = record {
  lines = text "2\n" ∷ text "https://server:6443\n" ∷ text "secret\n" ∷ [];
  keys = keys;
}

abbrev installing : CloudConfig
installing = record empty_config { k3os = record empty_k3os { install = some empty_install } }

abbrev wifi_lines : List Text
wifi_lines = text "home\n" ∷ text "pass\n" ∷ text "n\n" ∷ []

-- The process of root
abbrev root_system : Os
root_system = record fresh_system { number_of = λ h c. 0 }

abbrev old_shadow : Text
old_shadow = text "rancher:x:1000:1000::/home/rancher:/bin/bash\n"

set_password_in-restores_example :
    (set_password_in installing (text "secret") root_system []).1
    ≡ write_file shadow old_shadow 0o640
      ∷ (hash_of (text "secret") root_system (read_file shadow ∷ getuid ∷ [])).1
set_password_in-restores_example =
    set_password_in-restores installing (text "secret") old_shadow root_system [] refl refl

abbrev temp : Text
temp = text "/tmp/k3os.1"

install_from-Started_example :
    Failed plain_mapper fresh_system [] (install_from plain_mapper temp installing fresh_system [])
    ⊎ Started plain_mapper fresh_system temp installing []
        (install_from plain_mapper temp installing fresh_system [])
install_from-Started_example = install_from-Started plain_mapper fresh_system installing temp []

abbrev root_node : Node
root_node = record {
  kind = directory;
  mode = 0o755;
  uid = pos 0;
  gid = pos 0;
  access_time = 0;
  modification_time = 0;
  dev = pos 0;
  rdev = 0;
}

abbrev file_node : Node
file_node = record root_node { kind = regular; mode = 0o644 }

-- A tree of one directory and one file
abbrev pub walk_tree : Walk
walk_tree root visit =
    visit root (ok root_node) >> (visit (root ++ text "init") (ok file_node) >> pure tt)

walk_tree-IsWalk : IsWalk walk_tree
walk_tree-IsWalk = record {
  calls = λ P root visit stats reads visits. search (adds_rules, visits) depth 9;
}

abbrev no : Error
no = failed (text "no")

-- A system on which no file can be opened for writing
abbrev full_acts : History → Call → Option Error
full_acts h (open_write path mode) = some no
full_acts h c = none

abbrev full_system : Os
full_system = record fresh_system { act = full_acts }

unfilled : (fill_root walk_tree (text "/mnt") full_system []).0 ≡ err no
unfolding fill_root ◌>>=◌ ask_int act visit_directory visit_node lift make_directory move_node
    move_as ◌=ᵗ◌ copy_metadata when
unfilled = refl

copy_fs-IsKept_example :
    ((copy_fs walk_tree (text "/mnt") full_system []).0 ≡ err no)
    × Since IsKept [] (copy_fs walk_tree (text "/mnt") full_system []).1
copy_fs-IsKept_example =
    copy_fs-IsKept walk_tree walk_tree-IsWalk (text "/mnt") full_system [] no unfilled

visit_node-Copied_example :
    Since RemovesNothing []
      (visit_node (pos 0) (text "/mnt") (text "/init") (ok file_node) fresh_system []).1
    ⊎ Copied
        (pos 0)
        (text "/mnt")
        (text "/init")
        (join_path (text "/mnt" ∷ text "/init" ∷ []))
        file_node
        fresh_system
        []
visit_node-Copied_example =
    visit_node-Copied (pos 0) (text "/mnt") (text "/init") file_node fresh_system []
