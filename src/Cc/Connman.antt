-- ===== src/Cc/Connman.antt =====
-- `ApplyDNS`, `ApplyWifi` and `ApplyDataSource` of pkg/cc/funcs.go: files for connman and OpenRC.
pub mod Reading
use k3os.Base.{ℕ, suc, List, [], ◌∷◌, ◌++◌, is_nil, if◌then◌else◌}
use k3os.Base.Text.{Text, text, join}
use k3os.Base.Number.{itoa}
use k3os.Os.Call.{write_file, mkdir_all}
use k3os.Os.Io.{Io, pure, act, attempt, lift, ◌>>=◌, ◌>>◌}
use k3os.Config.{K3os, Wifi}
use k3os.Command.{with_context}

unfoldable pub dns_config : List Text → List Text → Text
unfolding join
dns_config nameservers ntp_servers =
    text "[General]\nNetworkInterfaceBlacklist=veth\nPreferredTechnologies=ethernet,wifi\n"
    ++ ((if is_nil nameservers
          then text "FallbackNameservers=8.8.8.8\n"
          else text "FallbackNameservers=" ++ (join (text ",") nameservers ++ text "\n"))
        ++ (if is_nil ntp_servers
            then []
            else text "FallbackTimeservers=" ++ (join (text ",") ntp_servers ++ text "\n")))

-- `ApplyDNS`
unfoldable pub apply_dns : K3os → Io (Unit {0})
unfolding dns_config attempt act lift ◌>>=◌
apply_dns k = do
  r ← attempt (
      act (
        write_file (text "/etc/connman/main.conf") (dns_config k.dns_nameservers k.ntp_servers)
          0o644))
  lift (with_context (text "failed to write /etc/connman/main.conf: ") r)

abbrev pub wifi_settings : Text
wifi_settings = text "[WiFi]\nEnable=true\nTethering=false\n"

unfoldable pub service : ℕ → Wifi → Text
unfolding itoa
service i w =
    text "[service_wifi"
    ++ (itoa i
        ++ (text "]\nType=wifi\nPassphrase="
            ++ (w.passphrase ++ (text "\nName=" ++ (w.name ++ text "\n")))))

unfoldable pub services : ℕ → List Wifi → Text
unfolding service
services i [] = []
services i (w ∷ ws) = service i w ++ services (suc i) ws

unfoldable pub wifi_config : List Wifi → Text
unfolding services
wifi_config ws =
    text "[global]\nName=cloud-config\nDescription=Services defined in the cloud-config\n"
    ++ services 0 ws

abbrev pub connman_dir : Text
connman_dir = text "/var/lib/connman"

-- `ApplyWifi`
unfoldable pub apply_wifi : K3os → Io (Unit {0})
unfolding pure wifi_config attempt act lift ◌>>=◌
apply_wifi k = if is_nil k.wifi then pure tt else do
  made ← attempt (act (mkdir_all connman_dir 0o755))
  lift (with_context (text "failed to mkdir /var/lib/connman: ") made)
  wrote ← attempt (act (write_file (text "/var/lib/connman/settings") wifi_settings 0o644))
  lift (with_context (text "failed to write to /var/lib/connman/settings: ") wrote)
  act (write_file (text "/var/lib/connman/cloud-config.config") (wifi_config k.wifi) 0o644)

-- `ApplyDataSource`
unfoldable pub apply_data_source : K3os → Io (Unit {0})
unfolding pure join attempt act lift ◌>>=◌
apply_data_source k = if is_nil k.data_sources then pure tt else do
  let content = text "command_args=\"" ++ (join (text " ") k.data_sources ++ text "\"\n")
  r ← attempt (act (write_file (text "/etc/conf.d/cloud-config") content 0o644))
  lift (with_context (text "failed to write to /etc/conf.d/cloud-config: ") r)
