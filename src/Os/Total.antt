-- ===== src/Os/Total.antt =====
-- `Total m`: whatever the system answers, `m` returns without an error. One rule for each way to
-- build a program.
use k3os.Base.{◌≡◌, refl, List, [], ◌∷◌, Bool, true, false}
use k3os.Os.Call.{Call, History, Result, ok, Os}
use k3os.Os.Io.{Io, pure, attempt, act_, for_each, when, ◌>>=◌, continue}

-- Whatever the system answers, the program returns without an error.
pub record Total {ℓ} {A : Type ℓ} (m : Io A) : Type ℓ where
  pub at : (os : Os) (h : History) → (a : A) × ((m os h).0 ≡ ok a)

module _ {ℓ} {A : Type ℓ} where
  pub Total-pure : (a : A) → Total (pure a)
  unfolding pure
  Total-pure a = record { at = λ os h. (a, refl) }

  pub Total-attempt : (m : Io A) → Total (attempt m)
  unfolding attempt
  Total-attempt m = record { at = λ os h. ((m os h).0, refl) }

module _ {ℓ κ} {A : Type ℓ} {B : Type κ} where
  pub Total-continue :
      (r : Result A) (f : A → Io B) (a : A) (os : Os) (h : History)
      → r ≡ ok a
      → Total (f a)
      → (b : B) × ((continue r f os h).0 ≡ ok b)
  Total-continue r f a os h e t = rw e (t.at os h)

  pub Total-bind : (m : Io A) (f : A → Io B) → Total m → ((a : A) → Total (f a)) → Total (m >>= f)
  unfolding ◌>>=◌
  Total-bind m f t k = record {
    at = λ os h. let (a, e) = t.at os h in Total-continue (m os h).0 f a os (m os h).1 e (k a);
  }

pub Total-act_ : (c : Call) → Total (act_ c)
unfolding act_
Total-act_ c = record { at = λ os h. (tt, refl) }

pub Total-when : (b : Bool) (m : Io (Unit {0})) → Total m → Total (when b m)
unfolding when
Total-when true m t = t
Total-when false m t = Total-pure tt

pub Total-for_each {ℓ} :
    {A : Type ℓ} (xs : List A) (body : A → Io (Unit {0}))
    → ((x : A) → Total (body x))
    → Total (for_each xs body)
unfolding for_each
Total-for_each [] body k = Total-pure tt
Total-for_each (x ∷ xs) body k =
    Total-bind (body x) (λ _. for_each xs body) (k x) (λ _. Total-for_each xs body k)

pub ruleset total_rules =
    (Total-pure, Total-attempt, Total-bind, Total-act_, Total-when, Total-for_each)
