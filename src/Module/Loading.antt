-- ===== src/Module/Loading.antt =====
-- pkg/module/module.go: the `modprobe` calls of `LoadModules`.
use k3os.Base.{
  ◌≡◌, refl, List, [], ◌∷◌, ◌++◌, append_assoc, inl, inr, Bool-cases, arith, if◌then◌else◌,
}
use k3os.Base.Text.{Text, split}
use k3os.Os.Call.{Call, ok, History, Os}
use k3os.Os.Io.{for_each}
use k3os.Module.{is_loaded, load_call, load_module}

-- The calls for the modules that are not loaded yet, the latest first.
pub wanted_calls : List Text → List Text → List Call
wanted_calls loaded [] = []
wanted_calls loaded (m ∷ ms) =
    let rest = wanted_calls loaded ms in
    if is_loaded loaded m then rest else rest ++ load_call (split b' ' m) ∷ []

-- If all modules could be loaded, then the calls were one `modprobe` for each module that
-- /proc/modules does not list, with its parameters, in the order of the configuration.
pub load_module-wanted_calls :
    (loaded ms : List Text) (os : Os) (h : History)
    → (for_each ms (load_module loaded) os h).0 ≡ ok tt
    → (for_each ms (load_module loaded) os h).1 ≡ wanted_calls loaded ms ++ h
unfolding for_each load_module wanted_calls
load_module-wanted_calls loaded [] os h e = refl
load_module-wanted_calls loaded (m ∷ ms) os h e = elim (Bool-cases (is_loaded loaded m)) [
  | inl there ↦ ground (arith, load_module-wanted_calls loaded ms os h)
  | inr missing ↦ ground (
    arith,
    load_module-wanted_calls loaded ms os (load_call (split b' ' m) ∷ h),
    append_assoc (wanted_calls loaded ms) (load_call (split b' ' m) ∷ []) h,
  )
]
