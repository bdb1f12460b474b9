-- ===== src/Module.antt =====
-- pkg/module/module.go. The scanner over /proc/modules meets no error once the file is open.
pub mod Loading
use k3os.Base.{List, [], ◌∷◌, ◌++◌, map, Bool, any_of, if◌then◌else◌}
use k3os.Base.Text.{Text, text, ◌=ᵗ◌, split, split_two, join, scan_lines}
use k3os.Os.Call.{read_file, modprobe, Call}
use k3os.Os.Io.{Io, pure, act, ask_text, attempt, lift, for_each, ◌>>=◌}
use k3os.Command.{with_context}

-- The modules that /proc/modules lists
unfoldable pub loaded_modules : Text → List Text
unfolding split_two scan_lines
loaded_modules contents = map (λ line. (split_two b' ' line).0) (scan_lines contents)

abbrev pub is_loaded : List Text → Text → Bool
is_loaded loaded m = any_of (λ l. l =ᵗ m) loaded

abbrev pub load_call : List Text → Call
load_call [] = modprobe [] []
load_call (name ∷ params) = modprobe name (join (text " ") params)

unfoldable pub load_module : List Text → Text → Io (Unit {0})
unfolding ◌=ᵗ◌ split join pure attempt act lift ◌>>=◌
load_module loaded m =
    if is_loaded loaded m
    then pure tt
    else attempt (act (load_call (split b' ' m))) >>= λ r.
        lift (with_context (text "could not load module " ++ m) r)

-- `LoadModules`
unfoldable pub load_modules : List Text → Io (Unit {0})
unfolding load_module loaded_modules for_each ask_text ◌>>=◌
load_modules modules = do
  contents ← ask_text (read_file (text "/proc/modules"))
  for_each modules (load_module (loaded_modules contents))
