-- ===== src/Upgrade/Copies.antt =====
-- pkg/cli/upgrade/upgrade.go: the copies of the components, and what is left to do after them.
use k3os.Base.{
  ◌≡◌, refl, ap, sym, subst, ◌∙◌, Bool, true, false, not, ◌&&◌, List, [], ◌∷◌, ◌++◌, if◌then◌else◌,
}
use k3os.Base.Text.{Text, text}
use k3os.Os.Call.{Error, Result, ok, err, History, Os}
use k3os.Os.Io.{Io, pure, attempt, ◌>>=◌, continue}
use k3os.System.Component.{copy_component}
use k3os.Upgrade.{Flags, Progress, note, upgrade_one, upgrade_all}

-- The keys of the components that are asked for, in the order of the copies
abbrev pub wanted_keys : Flags → List Text
wanted_keys f =
    (if f.upgrade_k3os then text "k3os" ∷ [] else [])
    ++ ((if f.upgrade_k3s then text "k3s" ∷ [] else [])
        ++ ((if f.upgrade_kernel then text "kernel" ∷ [] else []) ++ []))

-- The state of an upgrade in which a component was copied or not: a remount is to be done if one was
-- asked for and none was copied.
abbrev pub progress : Flags → Bool → Progress
progress f copied = record { copied = copied; remount = f.do_remount && not copied }

-- `Copies f os keys before h after h'`: from `h` each of the components is copied once, with a remount
-- if one was asked for and no component was copied before; `before` and `after` say whether one was.
pub data Copies (f : Flags) (os : Os) : List Text → Bool → History → Bool → History → Type 0 where
  ended : (b : Bool) (h : History) → Copies f os [] b h b h
  installed :
      (key : Text) (keys : List Text) (b b' : Bool) (h h₁ h' : History)
      → copy_component f.source_dir f.destination_dir (f.do_remount && not b) key os h
        ≡ (ok true, h₁)
      → Copies f os keys true h₁ b' h'
      → Copies f os (key ∷ keys) b h b' h'
  up_to_date :
      (key : Text) (keys : List Text) (b b' : Bool) (h h₁ h' : History)
      → copy_component f.source_dir f.destination_dir (f.do_remount && not b) key os h
        ≡ (ok false, h₁)
      → Copies f os keys b h₁ b' h'
      → Copies f os (key ∷ keys) b h b' h'
  refused :
      (key : Text) (keys : List Text) (b b' : Bool) (h h₁ h' : History) (e : Error)
      → copy_component f.source_dir f.destination_dir (f.do_remount && not b) key os h ≡ (err e, h₁)
      → Copies f os keys b h₁ b' h'
      → Copies f os (key ∷ keys) b h b' h'

no_remount : (d : Bool) → false ≡ (d && not true)
no_remount true = refl
no_remount false = refl

first_remount : (d : Bool) → d ≡ (d && not false)
first_remount true = refl
first_remount false = refl

bind-pure {ℓ} : {A : Type ℓ} (m : Io A) (os : Os) (h : History) → (m >>= pure) os h ≡ m os h
unfolding pure ◌>>=◌
bind-pure {A = A} m os h = whole (m os h)
  where
    whole : (r : Result A × History) → continue r.0 pure os r.1 ≡ r
    whole (ok a, h') = refl
    whole (err e, h') = refl

module _ (f : Flags) (os : Os) where
  -- The program ends in the state that these copies lead to.
  abbrev pub Leads : List Text → Bool → History → Result Progress × History → Type 0
  Leads keys b h r =
      (b' : Bool) × (h' : History) × (r ≡ (ok (progress f b'), h')) × Copies f os keys b h b' h'

  step :
      (wanted : Bool) (key : Text) (keys : List Text) (rest : Progress → Io Progress) (b : Bool)
      (h : History)
      → ((b₁ : Bool) (h₁ : History) → Leads keys b₁ h₁ (rest (progress f b₁) os h₁))
      → Leads
          ((if wanted then key ∷ [] else []) ++ keys)
          b
          h
          ((upgrade_one f wanted key (progress f b) >>= rest) os h)
  unfolding upgrade_one note attempt pure ◌>>=◌
  step false key keys rest b h next = next b h
  step true key keys rest b h next =
      after (copy_component f.source_dir f.destination_dir (f.do_remount && not b) key os h) refl
    where
      after :
          (r : Result Bool × History)
          → copy_component f.source_dir f.destination_dir (f.do_remount && not b) key os h ≡ r
          → Leads (key ∷ keys) b h (rest (note (progress f b) r.0) os r.1)
      after (ok true, h₁) e =
          let (b', h', e', k) = next true h₁ in
          (
            b',
            h',
            ap (λ d. rest (record { copied = true; remount = d }) os h₁) (no_remount f.do_remount)
                ∙ e',
            installed key keys b b' h h₁ h' e k,
          )
      after (ok false, h₁) e =
          let (b', h', e', k) = next b h₁ in (b', h', e', up_to_date key keys b b' h h₁ h' e k)
      after (err error, h₁) e =
          let (b', h', e', k) = next b h₁ in (b', h', e', refused key keys b b' h h₁ h' error e k)

  last :
      (wanted : Bool) (key : Text) (b : Bool) (h : History)
      → Leads
          ((if wanted then key ∷ [] else []) ++ [])
          b
          h
          (upgrade_one f wanted key (progress f b) os h)
  last wanted key b h =
      subst (Leads ((if wanted then key ∷ [] else []) ++ []) b h)
        (bind-pure (upgrade_one f wanted key (progress f b)) os h)
        (step wanted key [] pure b h λ b₁ h₁. unfold pure in (b₁, h₁, refl, ended b₁ h₁))

  -- Whatever the system answers, the copies of an upgrade return without an error: each component that
  -- was asked for is copied once and in order, with a remount if one was asked for and no component was
  -- copied before; after them the state says whether one was copied.
  pub upgrade_all-Leads : (h : History) → Leads (wanted_keys f) false h (upgrade_all f os h)
  unfolding upgrade_all
  upgrade_all-Leads h =
      subst
        (λ d. Leads (wanted_keys f) false h (
          (upgrade_one f f.upgrade_k3os (text "k3os") (record { copied = false; remount = d })
              >>= after_first)
            os h))
        (sym (first_remount f.do_remount))
        (step f.upgrade_k3os (text "k3os") _ after_first false h λ b₁ h₁.
          step f.upgrade_k3s (text "k3s") _ (upgrade_one f f.upgrade_kernel (text "kernel")) b₁ h₁
            λ b₂ h₂. last f.upgrade_kernel (text "kernel") b₂ h₂)
    where
      after_first : Progress → Io Progress
      after_first s =
          upgrade_one f f.upgrade_k3s (text "k3s") s
          >>= upgrade_one f f.upgrade_kernel (text "kernel")
