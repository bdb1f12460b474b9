-- ===== src/Config.antt =====
-- pkg/config/config.go: the cloud configuration. A Go map is the list of its entries, in the order
-- in which a `range` over it happens to visit them.
pub mod Permissions
pub mod Value
pub mod Coerce
pub mod Rename
pub mod Mapper
pub mod Env
pub mod Cmdline
pub mod UserData
pub mod Read
pub mod Schema
use k3os.Base.{ℕ, Bool, Option, List}
use k3os.Base.Text.{Text}

pub record Wifi : Type 0 where
  pub name : Text
  pub passphrase : Text

pub record Install : Type 0 where
  pub force_efi : Bool
  pub device : Text
  pub config_url : Text
  pub silent : Bool
  pub iso_url : Text
  pub power_off : Bool
  pub no_format : Bool
  pub debug : Bool
  pub tty : Text

abbrev pub StringMap : Type 0
StringMap = List (Text × Text)

pub record K3os : Type 0 where
  pub data_sources : List Text
  pub modules : List Text
  pub sysctls : StringMap
  pub ntp_servers : List Text
  pub dns_nameservers : List Text
  pub wifi : List Wifi
  pub password : Text
  pub server_url : Text
  pub token : Text
  pub labels : StringMap
  pub k3s_args : List Text
  pub environment : StringMap
  pub taints : List Text
  pub install : Option Install

pub record File : Type 0 where
  pub encoding : Text
  pub content : Text
  pub owner : Text
  pub path : Text
  pub raw_file_permissions : Text

pub record CloudConfig : Type 0 where
  pub ssh_authorized_keys : List Text
  pub write_files : List File
  pub hostname : Text
  pub k3os : K3os
  pub runcmd : List Text
  pub bootcmd : List Text
  pub initcmd : List Text
