-- ===== src/System/Upgrading.antt =====
-- `CopyComponent` as a whole: the checks of the versions, then the installation.
use k3os.Base.{
  ◌≡◌, refl, subst, ◌+◌, Bool, true, false, List, [], ◌∷◌, ◌++◌, inl, inr, Bool-cases, arith, All,
  if◌then◌else◌,
}
use k3os.Base.Text.{Text, text}
use k3os.Base.FilePath.{join_path}
use k3os.Os.Call.{Call, Result, ok, err, FileInfo, History, Os, Result-cases, stat, readlink, mount}
use k3os.Os.Io.{Io, pure, raise, lift, when, act, ask_text, ask_info, attempt, ◌>>=◌, continue}
use k3os.Os.Adds.{Adds, Since, adds_rules}
use k3os.System.Component.{
  VersionName, version_current, version_text, Version, checked, has_name, component_paths,
  stat_component_version, copy_component,
}
use k3os.System.Switch.{
  AreApart, IsFreshTemp, changes, Counts, changed, gain, install_version-Counts,
}

module _ (os : Os) (path : Text) where
  abbrev Quiet : Call → Type 0
  Quiet c = changes path c ≡ false

  changed-Quiet :
      (added : List Call) (h : History)
      → All Quiet added
      → changed os path (added ++ h) ≡ changed os path h
  unfolding changed
  changed-Quiet [] h q = refl
  changed-Quiet (c ∷ added) h q = ground (arith, changed-Quiet added h)

  changed-Since : (h h' : History) → Since Quiet h h' → changed os path h' ≡ changed os path h
  changed-Since h h' s = rw s.extends (changed-Quiet s.added h s.each)

  stat_component_version-Quiet :
      (root key : Text) (alias : VersionName) → Adds Quiet (stat_component_version root key alias)
  unfolding stat_component_version
  stat_component_version-Quiet root key alias = search adds_rules depth 9

  -- A program that changes nothing at `path` may run first.
  after_quiet {ℓ} :
      {A : Type ℓ} (r : Result A) (f : A → Io Bool) (h h' : History)
      → changed os path h' ≡ changed os path h
      → ((a : A) → r ≡ ok a → Counts os path (f a))
      → changed os path (continue r f os h').1 ≡ gain (continue r f os h').0 + changed os path h
  unfolding gain
  after_quiet (ok a) f h h' q k = omega (arith, (k a refl).at h')
  after_quiet (err e) f h h' q k = omega arith

  bind-Counts {ℓ} :
      {A : Type ℓ} (m : Io A) (f : A → Io Bool)
      → Adds Quiet m
      → ((h : History) (a : A) → (m os h).0 ≡ ok a → Counts os path (f a))
      → Counts os path (m >>= f)
  unfolding ◌>>=◌
  bind-Counts m f q k = record {
    at = λ h. after_quiet (m os h).0 f h (m os h).1 (changed-Since h (m os h).1 (q.at os h)) (k h);
  }

  if-Counts :
      (b : Bool) (m n : Io Bool)
      → Counts os path m
      → Counts os path n
      → Counts os path (if b then m else n)
  if-Counts true m n k l = k
  if-Counts false m n k l = l

  pure-Counts : Counts os path (pure false)
  unfolding pure gain
  pure-Counts = record { at = λ h. omega arith }

-- What `StatComponentVersion` finds is what the system says of the version that the link names.
module _ (os : Os) (root key : Text) (P : FileInfo → Type 0) where
  abbrev IsOfVersions : Type 0
  IsOfVersions =
      (h h' : History) (version : Text) (info : FileInfo)
      → os.text_of h (readlink (join_path (root ∷ key ∷ version_text version_current ∷ [])))
        ≡ ok version
      → os.info_of h' (stat (join_path (root ∷ key ∷ version ∷ []))) ≡ ok info
      → P info

  abbrev link : Text
  link = join_path (root ∷ key ∷ version_text version_current ∷ [])

  stat_component_version-found :
      IsOfVersions
      → (h : History) (v : Version) (info : FileInfo)
      → (stat_component_version root key version_current os h).0 ≡ ok v
      → checked v ≡ ok info
      → P info
  unfolding stat_component_version ◌>>=◌ attempt ask_info ask_text pure raise
  stat_component_version-found k h v info e c = elim (Result-cases (os.info_of h (stat link))) [
    | inr (_, bad) ↦ absurd (ground arith)
    | inl (alias_info, e₁) ↦ elim (Bool-cases alias_info.is_dir) [
      | inr file ↦ absurd (ground arith)
      | inl dir ↦ elim (Result-cases (os.text_of (stat link ∷ h) (readlink link))) [
        | inr (_, bad) ↦ absurd (ground arith)
        | inl (version, e₂) ↦
            let target = join_path (root ∷ key ∷ version ∷ []) in
            let before = readlink link ∷ stat link ∷ h in
            elim (Result-cases (os.info_of before (stat target))) [
              | inr (_, bad) ↦ absurd (ground arith)
              | inl (i, e₃) ↦ subst P (ground arith) (k (stat link ∷ h) before version i e₂ e₃)
            ]
      ]
    ]
  ]

module _ (os : Os) (src dst key : Text) where
  abbrev current : Text
  current = join_path (dst ∷ key ∷ version_text version_current ∷ [])

  abbrev ApartAt : FileInfo → Type 0
  ApartAt info = AreApart (component_paths src dst key info.name)

  copy_component-Counts :
      IsFreshTemp os current
      → IsOfVersions os src key ApartAt
      → (remount : Bool) → Counts os current (copy_component src dst remount key)
  unfolding copy_component lift
  copy_component-Counts fresh named remount =
      bind-Counts os current _ _ (stat_component_version-Quiet os current src key version_current)
        λ h v e. bind-Counts os current (lift (checked v)) _ (search adds_rules) λ _ info c.
          bind-Counts os current _ _
            (stat_component_version-Quiet os current dst key version_current)
            λ _ v'. λ _. if-Counts os current (has_name v' info.name) _ _ (pure-Counts os current) (
              bind-Counts os current
                (when remount (act (mount [] dst (text "none") (text "remount,rw")))) _
                (search adds_rules)
                λ _ _ _.
                  install_version-Counts (component_paths src dst key info.name) info os
                    (stat_component_version-found os src key ApartAt named h v info e c) fresh)

  -- Of all the calls that `CopyComponent` makes, its deferred ones included, the system accepted exactly one that changes the `current` link of the destination if
  -- the result is `true`, and none if it is `false` or an error. This where a new temporary
  -- directory never is that link, and where the links current.tmp and previous and the directories
  -- of the versions found in the source are other paths than it.
  pub copy_component-changed :
      IsFreshTemp os current
      → IsOfVersions os src key ApartAt
      → (remount : Bool) (h : History)
      → changed os current (copy_component src dst remount key os h).1
        ≡ gain (copy_component src dst remount key os h).0 + changed os current h
  copy_component-changed fresh named remount h = (copy_component-Counts fresh named remount).at h
