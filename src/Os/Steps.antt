-- ===== src/Os/Steps.antt =====
-- A run of a program, step by step: a step that fails ends it, and each step that succeeds adds its call.
-- `Goal` holds of every end by an error before which all calls satisfy `P`.
use k3os.Base.{◌≡◌, refl, inl, inr, none, Option-cases, ◌∷◌}
use k3os.Base.Text.{Text}
use k3os.Os.Call.{Call, History, Error, Result, ok, err, Result-cases, Os}
use k3os.Os.Io.{Io, lift, act, ask_text, continue, ◌>>=◌, ◌>>◌}
use k3os.Os.Adds.{Since, Since-trans, Since-call, Adds}

pub group {ℓ κ μ} :
    {A : Type ℓ} {B : Type κ} {C : Type μ} (m : Io A) (f : A → Io B) (g : B → Io C) (os : Os)
    (h : History)
    → (m >>= f >>= g) os h ≡ (m >>= λ a. f a >>= g) os h
unfolding ◌>>=◌
group {A = A} m f g os h = after (m os h)
  where
    after :
        (r : Result A × History)
        → (let (r', h') = continue r.0 f os r.1 in continue r' g os h')
          ≡ continue r.0 (λ a. f a >>= g) os r.1
    after (ok a, h') = refl
    after (err e, h') = refl

module _ {ℓ} {A : Type ℓ} (P : Call → Type 0) (os : Os) (start : History)
    (Goal : Result A × History → Type 0)
    (fails : (e : Error) (h : History) → Since P start h → Goal (err e, h)) where
  pub Since-add : (c : Call) (h : History) → P c → Since P start h → Since P start (c ∷ h)
  Since-add c h p since = Since-trans P start h (c ∷ h) since (Since-call P c h p)

  pub act_step :
      (c : Call) (rest : Io A) (h : History)
      → P c
      → Since P start h
      → ((os.act h c ≡ none) → Since P start (c ∷ h) → Goal (rest os (c ∷ h)))
      → Goal ((act c >> rest) os h)
  unfolding act ◌>>=◌
  act_step c rest h p since next = elim (Option-cases (os.act h c)) [
    | inl e ↦ rw e (next e (Since-add c h p since))
    | inr (error, e) ↦ rw e (fails error (c ∷ h) (Since-add c h p since))
  ]

  pub ask_text_step :
      (c : Call) (f : Text → Io A) (h : History)
      → P c
      → Since P start h
      → ((a : Text) → os.text_of h c ≡ ok a → Since P start (c ∷ h) → Goal (f a os (c ∷ h)))
      → Goal ((ask_text c >>= f) os h)
  unfolding ask_text ◌>>=◌
  ask_text_step c f h p since next = elim (Result-cases (os.text_of h c)) [
    | inl (a, e) ↦ rw e (next a e (Since-add c h p since))
    | inr (error, e) ↦ rw e (fails error (c ∷ h) (Since-add c h p since))
  ]

  pub lift_step {κ} :
      {B : Type κ} (r : Result B) (f : B → Io A) (h : History)
      → Since P start h
      → ((b : B) → r ≡ ok b → Goal (f b os h))
      → Goal ((lift r >>= f) os h)
  unfolding lift ◌>>=◌
  lift_step r f h since next = elim (Result-cases r) [
    | inl (b, e) ↦ rw e (next b e)
    | inr (error, e) ↦ rw e (fails error h since)
  ]

  -- A step of which only the kind of its calls is known
  pub adds_step {κ} :
      {B : Type κ} (m : Io B) (f : B → Io A) (h : History)
      → Adds P m
      → Since P start h
      → ((b : B) (h' : History) → m os h ≡ (ok b, h') → Since P start h' → Goal (f b os h'))
      → Goal ((m >>= f) os h)
  unfolding ◌>>=◌
  adds_step {B = B} m f h k since next =
      after (m os h) refl (Since-trans P start h (m os h).1 since (k.at os h))
    where
      after :
          (r : Result B × History) → m os h ≡ r → Since P start r.1 → Goal (continue r.0 f os r.1)
      after (ok b, h') e since' = next b h' e since'
      after (err error, h') e since' = fails error h' since'
