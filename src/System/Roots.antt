-- ===== src/System/Roots.antt =====
-- pkg/system/system.go
use k3os.Base.{List, [], ◌∷◌}
use k3os.Base.Text.{Text, text}
use k3os.Base.FilePath.{join_path}

abbrev pub default_root_dir : Text
default_root_dir = text "/k3os/system"

abbrev pub default_data_dir : Text
default_data_dir = text "/k3os/data"

abbrev pub default_local_dir : Text
default_local_dir = text "/var/lib/rancher/k3os"

abbrev pub default_state_dir : Text
default_state_dir = text "/run/k3os"

unfoldable pub root_path : List Text → Text
unfolding join_path
root_path elements = join_path (default_root_dir ∷ join_path elements ∷ [])

unfoldable pub data_path : List Text → Text
unfolding join_path
data_path elements = join_path (default_data_dir ∷ join_path elements ∷ [])

unfoldable pub local_path : List Text → Text
unfolding join_path
local_path elements = join_path (default_local_dir ∷ join_path elements ∷ [])

unfoldable pub state_path : List Text → Text
unfolding join_path
state_path elements = join_path (default_state_dir ∷ join_path elements ∷ [])
