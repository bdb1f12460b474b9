-- ===== src/Cc/K3s/Labels.antt =====
-- pkg/cc/funcs.go: the labels of the node in `ApplyK3S`, and the order of a text list.
use mathlib.Core.List.{Perm, Permᴰ}
use mathlib.Core.List.Perm
use mathlib.Core.Path.{ap, ap₂, fun_ext}
use mathlib.Core.Logic.{∥∥₁_elim}
use k3os.Base.{
  ◌≡◌, refl, ◌∙◌, List, [], ◌∷◌, ◌++◌, Bool, true, false, arith, Option, none, some, if◌then◌else◌,
}
use k3os.Os.Call.{run_env}
use k3os.Os.Io.{Io, pure, act, ◌>>=◌}
use k3os.Mode.{get_mode}
use k3os.Base.Text.{Text, text, ◌=ᵗ◌, ◌≤ᵗ◌, insert_text, sort_texts}
use k3os.Config.{K3os, StringMap}
use k3os.Cc.K3s.{
  label_of, node_labels, role_args, label_args, taint_args, install_args, install_vars, base_vars,
  exists, apply_k3s,
}

≤ᵗ-total : (s t : Text) → (s ≤ᵗ t) ≡ false → (t ≤ᵗ s) ≡ true
unfolding ◌≤ᵗ◌
≤ᵗ-total [] t h = absurd (ground arith)
≤ᵗ-total (x ∷ xs) [] h = refl
≤ᵗ-total (x ∷ xs) (y ∷ ys) h = ground (arith, ≤ᵗ-total xs ys)

≤ᵗ-antisym : (s t : Text) → (s ≤ᵗ t) ≡ true → (t ≤ᵗ s) ≡ true → s ≡ t
unfolding ◌≤ᵗ◌
≤ᵗ-antisym [] [] h k = refl
≤ᵗ-antisym [] (y ∷ ys) h k = absurd (ground arith)
≤ᵗ-antisym (x ∷ xs) [] h k = absurd (ground arith)
≤ᵗ-antisym (x ∷ xs) (y ∷ ys) h k = ground (arith, ≤ᵗ-antisym xs ys)

≤ᵗ-trans : (s t u : Text) → (s ≤ᵗ t) ≡ true → (t ≤ᵗ u) ≡ true → (s ≤ᵗ u) ≡ true
unfolding ◌≤ᵗ◌
≤ᵗ-trans [] t u h k = refl
≤ᵗ-trans (x ∷ xs) [] u h k = absurd (ground arith)
≤ᵗ-trans (x ∷ xs) (y ∷ ys) [] h k = absurd (ground arith)
≤ᵗ-trans (x ∷ xs) (y ∷ ys) (z ∷ zs) h k = ground (arith, ≤ᵗ-trans xs ys zs)

insert_comm :
    (s t : Text) (us : List Text)
    → insert_text s (insert_text t us) ≡ insert_text t (insert_text s us)
unfolding insert_text
insert_comm s t [] = ground (arith, ≤ᵗ-total s t, ≤ᵗ-antisym s t, ≤ᵗ-total t s)
insert_comm s t (u ∷ us) = ground (
  arith,
  insert_comm s t us,
  ≤ᵗ-total s t,
  ≤ᵗ-antisym s t,
  ≤ᵗ-trans s t u,
  ≤ᵗ-trans t s u,
  ≤ᵗ-total t s,
)

sort_texts-Permᴰ : {ss ts : List Text} → Permᴰ ss ts → sort_texts ss ≡ sort_texts ts
unfolding sort_texts
sort_texts-Permᴰ Permᴰ.nil = refl
sort_texts-Permᴰ (Permᴰ.cons e p) = ap₂ insert_text e (sort_texts-Permᴰ p)
sort_texts-Permᴰ (Permᴰ.swap {a = s} {b = t} {l = us} e f) =
    insert_comm s t (sort_texts us) ∙ ap₂ (λ x y. insert_text x (insert_text y (sort_texts us))) f e
sort_texts-Permᴰ (Permᴰ.trans p q) = sort_texts-Permᴰ p ∙ sort_texts-Permᴰ q

-- Whatever order the labels of the configuration are visited in, the node gets the same list of
-- labels, in the same order.
pub node_labels-Perm :
    (labels labels' : StringMap) (mode version : Text)
    → Perm labels labels'
    → node_labels labels mode version ≡ node_labels labels' mode version
unfolding node_labels
node_labels-Perm labels labels' mode version p =
    ∥∥₁_elim (Perm.append_right _ (Perm.map label_of p)) (hlevel) sort_texts-Permᴰ

-- `ApplyK3S` makes the same calls, with the same arguments of the installer, whatever order the
-- labels of the configuration are visited in.
pub apply_k3s-Perm :
    (version : Text) (k : K3os) (labels : StringMap) (restart install : Bool)
    → Perm k.labels labels
    → apply_k3s version k restart install
      ≡ apply_k3s version (record k { labels = labels }) restart install
unfolding apply_k3s install_args install_vars
apply_k3s-Perm version k labels restart install p =
    ap
      (λ sorted. do
        mode ← get_mode []
        if mode =ᵗ text "install" then pure tt else do
          k3s_exists ← exists (text "/sbin/k3s")
          k3s_local_exists ← exists (text "/usr/local/bin/k3s")
          install_by (sorted mode) (base_vars k3s_exists k3s_local_exists restart install))
      (fun_ext λ mode. node_labels-Perm k.labels labels mode version p)
  where
    install_by : List Text → Option (List Text) → Io (Unit {0})
    install_by sorted none = pure tt
    install_by sorted (some vars) = act (
        run_env
          (text "/usr/libexec/k3os/k3s-install.sh"
            ∷ (role_args k ++ (label_args sorted ++ taint_args k.taints)))
          (install_vars k restart vars))
