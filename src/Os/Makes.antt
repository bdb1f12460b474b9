-- ===== src/Os/Makes.antt =====
-- `Makes calls m`: whatever the system answers, `m` returns without an error and makes these calls, in
-- this order, among others. One rule for each way to build a program.
use k3os.Base.{◌≡◌, refl, List, [], ◌∷◌, ◌++◌, Bool, true, false}
use k3os.Os.Call.{Call, History, Result, ok, Os}
use k3os.Os.Io.{
  Io, pure, attempt, act_, ask_text, ask_names, ask_info, for_each, when, ◌>>=◌, continue,
}

-- `Among calls h h'`: `h'` goes on from `h`, and these calls are among those that it adds, in order.
pub data Among : List Call → History → History → Type 0 where
  ended : (h : History) → Among [] h h
  other :
      (c : Call) (calls : List Call) (h h' : History) → Among calls (c ∷ h) h' → Among calls h h'
  made :
      (c : Call) (calls : List Call) (h h' : History)
      → Among calls (c ∷ h) h'
      → Among (c ∷ calls) h h'

Among-append :
    (before after : List Call) (h h₁ h₂ : History)
    → Among before h h₁
    → Among after h₁ h₂
    → Among (before ++ after) h h₂
Among-append before after h h₁ h₂ (ended _) k = k
Among-append before after h h₁ h₂ (other c _ _ _ j) k =
    other c (before ++ after) h h₂ (Among-append before after (c ∷ h) h₁ h₂ j k)
Among-append before after h h₁ h₂ (made c cs _ _ j) k =
    made c (cs ++ after) h h₂ (Among-append cs after (c ∷ h) h₁ h₂ j k)

-- Whatever the system answers, the program returns without an error and has made the calls in order.
pub record Makes {ℓ} {A : Type ℓ} (calls : List Call) (m : Io A) : Type ℓ where
  pub at : (os : Os) (h : History) → (a : A) × ((m os h).0 ≡ ok a) × Among calls h (m os h).1

pub Makes-pure {ℓ} : {A : Type ℓ} (a : A) → Makes [] (pure a)
unfolding pure
Makes-pure a = record { at = λ os h. (a, refl, ended h) }

-- A call that is made, and one that is not asked about.
pub Makes-act_ : (c : Call) → Makes (c ∷ []) (act_ c)
unfolding act_
Makes-act_ c = record { at = λ os h. (tt, refl, made c [] h (c ∷ h) (ended (c ∷ h))) }

pub Makes-other : (c : Call) → Makes [] (act_ c)
unfolding act_
Makes-other c = record { at = λ os h. (tt, refl, other c [] h (c ∷ h) (ended (c ∷ h))) }

pub Makes-ask_text : (c : Call) → Makes (c ∷ []) (attempt (ask_text c))
unfolding attempt ask_text
Makes-ask_text c = record {
  at = λ os h. (os.text_of h c, refl, made c [] h (c ∷ h) (ended (c ∷ h)));
}

pub Makes-other_text : (c : Call) → Makes [] (attempt (ask_text c))
unfolding attempt ask_text
Makes-other_text c = record {
  at = λ os h. (os.text_of h c, refl, other c [] h (c ∷ h) (ended (c ∷ h)));
}

pub Makes-other_names : (c : Call) → Makes [] (attempt (ask_names c))
unfolding attempt ask_names
Makes-other_names c = record {
  at = λ os h. (os.names_of h c, refl, other c [] h (c ∷ h) (ended (c ∷ h)));
}

pub Makes-other_info : (c : Call) → Makes [] (attempt (ask_info c))
unfolding attempt ask_info
Makes-other_info c = record {
  at = λ os h. (os.info_of h c, refl, other c [] h (c ∷ h) (ended (c ∷ h)));
}

module _ {ℓ κ} {A : Type ℓ} {B : Type κ} where
  Makes-continue :
      (before after : List Call) (r : Result A) (f : A → Io B) (a : A) (os : Os) (h h₁ : History)
      → r ≡ ok a
      → Among before h h₁
      → Makes after (f a)
      → (b : B) × ((continue r f os h₁).0 ≡ ok b) × Among (before ++ after) h (continue r f os h₁).1
  Makes-continue before after r f a os h h₁ e k t =
      let (b, e', j) = t.at os h₁ in rw e (b, e', Among-append before after h h₁ (f a os h₁).1 k j)

  pub Makes-bind :
      (before after : List Call) (m : Io A) (f : A → Io B)
      → Makes before m
      → ((a : A) → Makes after (f a))
      → Makes (before ++ after) (m >>= f)
  unfolding ◌>>=◌
  Makes-bind before after m f t k = record {
    at = λ os h.
        let (a, e, j) = t.at os h in
        Makes-continue before after (m os h).0 f a os h (m os h).1 e j (k a);
  }

  pub Makes-first :
      (c : Call) (calls : List Call) (m : Io A) (f : A → Io B)
      → Makes (c ∷ []) m
      → ((a : A) → Makes calls (f a))
      → Makes (c ∷ calls) (m >>= f)
  Makes-first c calls m f t k = Makes-bind (c ∷ []) calls m f t k

  pub Makes-skip :
      (calls : List Call) (m : Io A) (f : A → Io B)
      → Makes [] m
      → ((a : A) → Makes calls (f a))
      → Makes calls (m >>= f)
  Makes-skip calls m f t k = Makes-bind [] calls m f t k

pub Makes-when : (b : Bool) (m : Io (Unit {0})) → Makes [] m → Makes [] (when b m)
unfolding when
Makes-when true m t = t
Makes-when false m t = Makes-pure tt

pub Makes-for_each {ℓ} :
    {A : Type ℓ} (xs : List A) (body : A → Io (Unit {0}))
    → ((x : A) → Makes [] (body x))
    → Makes [] (for_each xs body)
unfolding for_each
Makes-for_each [] body k = Makes-pure tt
Makes-for_each (x ∷ xs) body k =
    Makes-skip [] (body x) (λ _. for_each xs body) (k x) (λ _. Makes-for_each xs body k)

-- The calls that are asked about first, where there are any.
pub ruleset makes_rules = (
  Makes-first, Makes-act_, Makes-ask_text, Makes-skip, Makes-pure, Makes-other, Makes-other_text,
  Makes-other_names, Makes-other_info, Makes-when, Makes-for_each,
)
