-- ===== src/Os/Accepted.antt =====
-- The calls of a program that have to come in order, each accepted by the system. A step that is none
-- of them adds other calls; a step that fails ends the program. `Goal` holds of every error.
use k3os.Base.{◌≡◌, inl, inr, subst, sym, none, Option-cases, List, [], ◌∷◌, ◌++◌}
use k3os.Os.Call.{Call, History, Error, Result, ok, err, Os}
use k3os.Os.Io.{Io, act, defer, continue, ◌>>=◌, ◌>>◌}
use k3os.Os.Adds.{Adds, Since}

-- Since `start`, the calls, the latest first, were made and accepted.
pub data Accepted (os : Os) (start : History) : List Call → History → Type 0 where
  begun : Accepted os start [] start
  accepted :
      (c : Call) (cs : List Call) (h : History)
      → os.act h c ≡ none
      → Accepted os start cs h
      → Accepted os start (c ∷ cs) (c ∷ h)
  another :
      (c : Call) (cs : List Call) (h : History)
      → Accepted os start cs h
      → Accepted os start cs (c ∷ h)

pub Accepted-trans :
    (os : Os) (start mid : History) (cs : List Call) (h : History)
    → Accepted os start [] mid
    → Accepted os mid cs h
    → Accepted os start cs h
Accepted-trans os start mid cs h k begun = k
Accepted-trans os start mid cs h k (accepted c cs' h' e k') =
    accepted c cs' h' e (Accepted-trans os start mid cs' h' k k')
Accepted-trans os start mid cs h k (another c cs' h' k') =
    another c cs h' (Accepted-trans os start mid cs h' k k')

pub Accepted-append :
    (os : Os) (start : History) (cs : List Call) (added h : History)
    → Accepted os start cs h
    → Accepted os start cs (added ++ h)
Accepted-append os start cs [] h k = k
Accepted-append os start cs (c ∷ added) h k =
    another c cs (added ++ h) (Accepted-append os start cs added h k)

pub Accepted-Since :
    (P : Call → Type 0) (os : Os) (start : History) (cs : List Call) (h h' : History)
    → Since P h h'
    → Accepted os start cs h
    → Accepted os start cs h'
Accepted-Since P os start cs h h' since k =
    subst (Accepted os start cs) (sym since.extends) (Accepted-append os start cs since.added h k)

abbrev pub IsAny : Call → Type 0
IsAny c = Unit

module _ {ℓ} {A : Type ℓ} (os : Os) (start : History) (Goal : Result A × History → Type 0)
    (fails : (e : Error) (h : History) → Goal (err e, h)) where
  -- A step that is one of the calls
  pub accepted_step :
      (c : Call) (rest : Io A) (cs : List Call) (h : History)
      → Accepted os start cs h
      → (Accepted os start (c ∷ cs) (c ∷ h) → Goal (rest os (c ∷ h)))
      → Goal ((act c >> rest) os h)
  unfolding act ◌>>=◌
  accepted_step c rest cs h k next = elim (Option-cases (os.act h c)) [
    | inl e ↦ rw e (next (accepted c cs h e k))
    | inr (error, e) ↦ rw e (fails error (c ∷ h))
  ]

  -- A step that is none of the calls
  pub other_step {κ} :
      {B : Type κ} (m : Io B) (f : B → Io A) (cs : List Call) (h : History)
      → Adds IsAny m
      → Accepted os start cs h
      → ((b : B) (h' : History) → Accepted os start cs h' → Goal (f b os h'))
      → Goal ((m >>= f) os h)
  unfolding ◌>>=◌
  other_step {B = B} m f cs h grows k next =
      after (m os h) (Accepted-Since IsAny os start cs h (m os h).1 (grows.at os h) k)
    where
      after : (r : Result B × History) → Accepted os start cs r.1 → Goal (continue r.0 f os r.1)
      after (ok b, h') k' = next b h' k'
      after (err error, h') k' = fails error h'

  pub plain_step {κ} :
      {B : Type κ} (m : Io B) (rest : Io A) (cs : List Call) (h : History)
      → Adds IsAny m
      → Accepted os start cs h
      → ((h' : History) → Accepted os start cs h' → Goal (rest os h'))
      → Goal ((m >> rest) os h)
  plain_step m rest cs h grows k next = other_step m (λ _. rest) cs h grows k λ b h' k'. next h' k'

  -- A clean-up after the program
  pub defer_step {κ} :
      {B : Type κ} (cleanup : Io B) (m : Io A) (h : History)
      → Adds IsAny cleanup
      → ((r : Result A) (h' added : History) → Goal (r, h') → Goal (r, added ++ h'))
      → Goal (m os h)
      → Goal (defer cleanup m os h)
  unfolding defer
  defer_step cleanup m h grows stable goal =
      let (r, h') = m os h in
      let since = grows.at os h' in
      subst (λ k. Goal (r, k)) (sym since.extends) (stable r h' since.added goal)
