-- ===== src/Os/Adds.antt =====
-- `Adds P m`: whatever the system answers, `m` keeps the history that it starts from and every
-- call that it adds to it satisfies `P`. One rule for each way to build a program.
use mathlib.Core.Path.{◌≡◌, refl, ap, sym, ◌∙◌}
use mathlib.Core.Bool.{Bool, true, false}
use mathlib.Core.List.{List, [], ◌∷◌, ◌++◌, append_assoc}
use k3os.Base.{All, All-append}
use k3os.Base.{if◌then◌else◌}
use k3os.Os.Call.{Call, History, Error, Result, ok, err, Os}
use k3os.Os.Io.{
  Io, pure, raise, attempt, lift, defer, act, act_, ask_text, ask_names, ask_info, ask_number,
  ask_http, ask_flag, ask_int, for_each, when, ◌>>=◌, continue,
}

pub record Since (P : Call → Type 0) (h h' : History) : Type 0 where
  pub added : List Call
  pub extends : h' ≡ added ++ h
  pub each : All P added

pub Since-refl : (P : Call → Type 0) (h : History) → Since P h h
Since-refl P h = record { added = []; extends = refl; each = tt }

pub Since-trans :
    (P : Call → Type 0) (h h' h'' : History) → Since P h h' → Since P h' h'' → Since P h h''
Since-trans P h h' h'' s t = record {
  added = t.added ++ s.added;
  extends = t.extends ∙ ap (λ x. t.added ++ x) s.extends ∙ sym (append_assoc t.added s.added h);
  each = All-append P t.added s.added t.each s.each;
}

pub Since-call : (P : Call → Type 0) (c : Call) (h : History) → P c → Since P h (c ∷ h)
Since-call P c h p = record { added = c ∷ []; extends = refl; each = (p, tt) }

pub record Adds {ℓ} {A : Type ℓ} (P : Call → Type 0) (m : Io A) : Type ℓ where
  pub at : (os : Os) (h : History) → Since P h (m os h).1

module _ (P Q : Call → Type 0) (weaker : (c : Call) → P c → Q c) where
  All-weaken : (cs : List Call) → All P cs → All Q cs
  All-weaken [] k = tt
  All-weaken (c ∷ cs) (p, k) = (weaker c p, All-weaken cs k)

  pub Since-weaken : (h h' : History) → Since P h h' → Since Q h h'
  Since-weaken h h' s = record {
    added = s.added;
    extends = s.extends;
    each = All-weaken s.added s.each;
  }

  pub Adds-weaken {ℓ} : {A : Type ℓ} (m : Io A) → Adds P m → Adds Q m
  Adds-weaken m k = record { at = λ os h. Since-weaken h _ (k.at os h) }

module _ {ℓ} {A : Type ℓ} (P : Call → Type 0) where
  pub Adds-pure : (a : A) → Adds P (pure a)
  unfolding pure
  Adds-pure a = record { at = λ os h. Since-refl P h }

  pub Adds-raise : (e : Error) → Adds P (raise {A = A} e)
  unfolding raise
  Adds-raise e = record { at = λ os h. Since-refl P h }

  pub Adds-lift : (r : Result A) → Adds P (lift r)
  unfolding lift
  Adds-lift r = record { at = λ os h. Since-refl P h }

  pub Adds-attempt : (m : Io A) → Adds P m → Adds P (attempt m)
  unfolding attempt
  Adds-attempt m k = record { at = λ os h. k.at os h }

  pub Adds-if : (b : Bool) (m n : Io A) → Adds P m → Adds P n → Adds P (if b then m else n)
  Adds-if true m n km kn = km
  Adds-if false m n km kn = kn

module _ {ℓ κ} {A : Type ℓ} {B : Type κ} (P : Call → Type 0) where
  pub Since-continue :
      (r : Result A) (f : A → Io B) (os : Os) (h : History)
      → ((a : A) → Adds P (f a))
      → Since P h (continue r f os h).1
  Since-continue (ok a) f os h k = (k a).at os h
  Since-continue (err e) f os h k = Since-refl P h

  pub Adds-bind : (m : Io A) (f : A → Io B) → Adds P m → ((a : A) → Adds P (f a)) → Adds P (m >>= f)
  unfolding ◌>>=◌
  Adds-bind m f km kf = record {
    at = λ os h.
        Since-trans P h (m os h).1 _ (km.at os h) (Since-continue (m os h).0 f os (m os h).1 kf);
  }

  pub Adds-defer : (c : Io B) (m : Io A) → Adds P c → Adds P m → Adds P (defer c m)
  unfolding defer
  Adds-defer c m kc km = record {
    at = λ os h. Since-trans P h (m os h).1 _ (km.at os h) (kc.at os (m os h).1);
  }

module _ (P : Call → Type 0) where
  pub Adds-act : (c : Call) → P c → Adds P (act c)
  unfolding act
  Adds-act c p = record { at = λ os h. Since-call P c h p }

  pub Adds-act_ : (c : Call) → P c → Adds P (act_ c)
  unfolding act_
  Adds-act_ c p = record { at = λ os h. Since-call P c h p }

  pub Adds-ask_text : (c : Call) → P c → Adds P (ask_text c)
  unfolding ask_text
  Adds-ask_text c p = record { at = λ os h. Since-call P c h p }

  pub Adds-ask_names : (c : Call) → P c → Adds P (ask_names c)
  unfolding ask_names
  Adds-ask_names c p = record { at = λ os h. Since-call P c h p }

  pub Adds-ask_info : (c : Call) → P c → Adds P (ask_info c)
  unfolding ask_info
  Adds-ask_info c p = record { at = λ os h. Since-call P c h p }

  pub Adds-ask_number : (c : Call) → P c → Adds P (ask_number c)
  unfolding ask_number
  Adds-ask_number c p = record { at = λ os h. Since-call P c h p }

  pub Adds-ask_int : (c : Call) → P c → Adds P (ask_int c)
  unfolding ask_int
  Adds-ask_int c p = record { at = λ os h. Since-call P c h p }

  pub Adds-ask_http : (c : Call) → P c → Adds P (ask_http c)
  unfolding ask_http
  Adds-ask_http c p = record { at = λ os h. Since-call P c h p }

  pub Adds-ask_flag : (c : Call) → P c → Adds P (ask_flag c)
  unfolding ask_flag
  Adds-ask_flag c p = record { at = λ os h. Since-call P c h p }

  pub Adds-when : (b : Bool) (m : Io (Unit {0})) → Adds P m → Adds P (when b m)
  unfolding when
  Adds-when true m k = k
  Adds-when false m k = Adds-pure P tt

  pub Adds-for_each {ℓ} :
      {A : Type ℓ} (xs : List A) (body : A → Io (Unit {0}))
      → ((x : A) → Adds P (body x))
      → Adds P (for_each xs body)
  unfolding for_each
  Adds-for_each [] body k = Adds-pure P tt
  Adds-for_each (x ∷ xs) body k =
      Adds-bind P (body x) (λ _. for_each xs body) (k x) (λ _. Adds-for_each xs body k)

pub ruleset adds_rules = (
  Adds-pure, Adds-raise, Adds-lift, Adds-attempt, Adds-if, Adds-bind, Adds-defer, Adds-act,
  Adds-act_, Adds-ask_text, Adds-ask_names, Adds-ask_info, Adds-ask_number, Adds-ask_http,
  Adds-ask_int, Adds-ask_flag, Adds-when, Adds-for_each,
)
