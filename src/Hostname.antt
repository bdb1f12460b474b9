-- ===== src/Hostname.antt =====
-- pkg/hostname/hostname.go
pub mod Hosts
pub mod Lines
use Hosts.{rewrite_hosts}
use k3os.Base.{List, [], ◌∷◌, ◌++◌}
use k3os.Base.Text.{Text, text, scan_lines}
use k3os.Os.Call.{Call, write_file, read_file, sethostname, hostname}
use k3os.Os.Io.{Io, pure, act, ask_text, ◌>>=◌, ◌>>◌}

-- The rest of `syncHostname`. The source does not look at the error of its scanner, which stops at a
-- line of more than 64 KiB; the lines here are shorter.
unfoldable pub write_hostname : Text → Io (Unit {0})
unfolding pure act ask_text ◌>>=◌ rewrite_hosts scan_lines
write_hostname [] = pure tt
write_hostname (c ∷ s) = do
  let name = c ∷ s
  act (write_file (text "/etc/hostname") (name ++ text "\n") 0o644)
  hosts ← ask_text (read_file (text "/etc/hosts"))
  act (write_file (text "/etc/hosts") (rewrite_hosts name (scan_lines hosts)) 0o600)

-- `syncHostname`
unfoldable pub sync_hostname : Io (Unit {0})
unfolding write_hostname
sync_hostname = do name ← ask_text hostname; write_hostname name

-- `SetHostname`
unfoldable pub set_hostname : Text → Io (Unit {0})
unfolding sync_hostname
set_hostname [] = pure tt
set_hostname (c ∷ s) = act (sethostname (c ∷ s)) >> sync_hostname
