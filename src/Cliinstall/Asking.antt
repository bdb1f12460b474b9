-- ===== src/Cliinstall/Asking.antt =====
-- Programs that also ask the user. What the questions read and what the password prompt reads are
-- two inputs: the lines and the keys in the order in which they come.
use k3os.Base.{Option, none, some, List}
use k3os.Base.Text.{Text, text}
use k3os.Os.Call.{Error, failed, Result, ok, err, History}
use k3os.Os.Io.{Io, continue}
use k3os.Questions.{Answer, answer, input_error, out_of_fuel}
use k3os.Util.Mask.{Key}

pub record Terminal : Type 0 where
  pub lines : List Text
  pub keys : List Key

abbrev pub Asking {ℓ} : Type ℓ → Type ℓ
Asking A = Terminal → Io (A × Terminal)

module _ {ℓ} {A : Type ℓ} where
  unfoldable pub give : A → Asking A
  give a t os h = (ok (a, t), h)

  unfoldable pub fail : Error → Asking A
  fail e t os h = (err e, h)

  abbrev pub with_terminal : Result A → Terminal → History → Result (A × Terminal) × History
  with_terminal (ok a) t h = (ok (a, t), h)
  with_terminal (err e) t h = (err e, h)

  -- A program that does not ask
  unfoldable pub by_system : Io A → Asking A
  by_system m t os h = let (r, h') = m os h in with_terminal r t h'

  abbrev pub after_answer : Answer A → Terminal → History → Result (A × Terminal) × History
  after_answer (answer a rest) t h = (ok (a, record t { lines = rest }), h)
  after_answer input_error t h = (err (failed (text "EOF")), h)
  after_answer out_of_fuel t h = (err (failed (text "out of fuel")), h)

  -- A question
  unfoldable pub ask : (List Text → Answer A) → Asking A
  ask question t os h = after_answer (question t.lines) t h

module _ {ℓ κ} {A : Type ℓ} {B : Type κ} where
  infixl 10 ◌>>=◌
  unfoldable pub ◌>>=◌ : Asking A → (A → Asking B) → Asking B
  ◌>>=◌ m f t os h = let (r, h') = m t os h in continue r (λ r. f r.0 r.1) os h'

-- The panics of a nil pointer and of an index out of range, which nothing recovers from
abbrev pub not_nil {ℓ} : {A : Type ℓ} → Option A → Asking A
not_nil none = fail (failed (text "invalid memory address or nil pointer dereference"))
not_nil (some a) = give a

abbrev pub in_bounds {ℓ} : {A : Type ℓ} → Option A → Asking A
in_bounds none = fail (failed (text "index out of range"))
in_bounds (some a) = give a
