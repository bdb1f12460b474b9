-- ===== src/Tests/Data.antt =====
-- Systems and configurations for the tests.
use k3os.Base.{◌≡◌, ◌≢◌, ap, true, false, none, some, [], ◌∷◌, ◌++◌, arith, if◌then◌else◌}
use k3os.Base.Text.{Text, text, ◌=ᵗ◌, =ᵗ-refl, has_prefix}
use k3os.Base.Number.{pos}
use k3os.Os.Call.{
  Call, not_exist, failed, Result, ok, err, FileInfo, History, Os, readlink, read_file, temp_dir,
  temp_file,
}
use k3os.Config.{CloudConfig, K3os}
use k3os.Cc.Apply.{Tools}
use k3os.Upgrade.{Flags}

pub differ : (s t : Text) → (s =ᵗ t) ≡ false → s ≢ t
differ s t h e = ground (arith, ap (λ u. s =ᵗ u) e, =ᵗ-refl s)

abbrev pub version_dir : FileInfo
version_dir = record { name = text "v2"; is_dir = true; mode = 0o755 }

-- A system with version v2 under /src, and nothing under /dst.
abbrev texts : History → Call → Result Text
texts h (readlink path) =
    if has_prefix path (text "/src") then ok (text "v2") else err (not_exist (text "readlink"))
texts h (temp_dir dir pattern_) = ok (text "/tmp/1")
texts h (temp_file dir pattern_) = ok (text "/etc/.environment7")
texts h (read_file path) = ok (text "rancher:x:1000:1000::/home/rancher:/bin/bash\n")
texts h c = ok []

abbrev pub fresh_system : Os
fresh_system = record {
  act = λ h c. none;
  text_of = texts;
  names_of = λ h c. ok [];
  info_of = λ h c. ok version_dir;
  number_of = λ h c. 1;
  int_of = λ h c. ok (pos 0);
  flag_of = λ h c. ok false;
  http_of = λ h c. ok (record { status = 200; body = ok (text "ssh-rsa A") });
}

-- A system on which every action fails.
abbrev pub broken_system : Os
broken_system = record fresh_system { act = λ h c. some (failed (text "no")) }

abbrev pub flags : Flags
flags = record {
  upgrade_k3os = true;
  upgrade_k3s = true;
  upgrade_kernel = false;
  upgrade_root_fs = false;
  do_remount = true;
  do_sync = true;
  do_reboot = false;
  source_dir = text "/src";
  destination_dir = text "/dst";
  lock_file = text "/run/k3os/upgrade.lock";
}

abbrev k3os_config : K3os
k3os_config = record {
  data_sources = text "aws" ∷ [];
  modules = text "kvm" ∷ text "nvme a=1" ∷ [];
  sysctls = (text "kernel.printk", text "4") ∷ [];
  ntp_servers = [];
  dns_nameservers = text "8.8.8.8" ∷ [];
  wifi = [];
  password = text "rancher";
  server_url = [];
  token = text "secret";
  labels = (text "region", text "west") ∷ [];
  k3s_args = [];
  environment = (text "http_proxy", text "http://proxy") ∷ [];
  taints = [];
  install = none;
}

abbrev pub config : CloudConfig
config = record {
  ssh_authorized_keys = text "github:rancher" ∷ [];
  write_files = [];
  hostname = text "node";
  k3os = k3os_config;
  runcmd = [];
  bootcmd = text "echo boot" ∷ [];
  initcmd = [];
}

abbrev pub tools : Tools
tools = record {
  codec = record { base64 = λ t. some t; gunzip = λ t. none };
  parse_url = λ t. some (text "github", text "rancher");
  quote = λ t. text "\"" ++ (t ++ text "\"");
  unquote = λ t. none;
  version = text "v0.9.0";
}
