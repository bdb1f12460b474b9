-- ===== src/Entry/Booted.antt =====
-- main.go: what `initrd` does to the root that is there.
use k3os.Base.Text.{Text}
use k3os.Os.Call.{Os}
use k3os.Os.Io.{Io}
use k3os.Os.Adds.{Adds}
