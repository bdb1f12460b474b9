-- ===== src/Cc/K3s/Decision.antt =====
-- pkg/cc/funcs.go: the decisions of `ApplyK3S`.
use k3os.Base.{◌≡◌, Bool, true, false, not, ◌&&◌, ◌||◌, Option, none, some, List, any_of, arith}
use k3os.Base.Text.{Text, text, ◌=ᵗ◌}
use k3os.Cc.K3s.{base_vars}

abbrev pub skips_download : List Text → Bool
skips_download = any_of (λ v. v =ᵗ text "INSTALL_K3S_SKIP_DOWNLOAD=true")

abbrev pub is_some : Option (List Text) → Bool
is_some none = false
is_some (some vars) = true

abbrev pub downloads : Option (List Text) → Bool
downloads none = false
downloads (some vars) = not (skips_download vars)

-- The installer runs exactly if k3s is in /sbin, or a restart is wanted and k3s is in
-- /usr/local/bin or may be installed; and it may download k3s exactly if a restart is wanted and k3s
-- may be installed and is in neither place.
pub base_vars_lem :
    (k3s_exists k3s_local_exists restart install : Bool)
    → let vars = base_vars k3s_exists k3s_local_exists restart install in
      (is_some vars ≡ (k3s_exists || restart && (k3s_local_exists || install)))
      × (downloads vars ≡ (restart && install && not k3s_exists && not k3s_local_exists))
unfolding base_vars ◌=ᵗ◌
base_vars_lem true local_exists restart install = ground arith
base_vars_lem false local_exists restart install = ground arith
