-- ===== src/Os/Io.antt =====
-- Programs over the operating system. `◌>>=◌` returns early on an error, as `if err != nil` does.
use Prim.Native.Nat.{ℕ}
use mathlib.Core.Bool.{Bool}
use mathlib.Core.Option.{Option, none, some}
use mathlib.Core.List.{List, [], ◌∷◌}
use k3os.Base.Text.{Text}
use k3os.Base.Number.{ℤ}
use k3os.Base.{if◌then◌else◌}
use k3os.Os.Call.{Call, History, Error, Result, ok, err, Os, FileInfo, HttpReply}

abbrev pub Io {ℓ} : Type ℓ → Type ℓ
Io A = Os → History → Result A × History

abbrev pub done : Result (Unit {0})
done = ok tt

module _ {ℓ} {A : Type ℓ} where
  unfoldable pub pure : A → Io A
  pure a os h = (ok a, h)

  unfoldable pub raise : Error → Io A
  raise e os h = (err e, h)

  -- Hands the outcome on as a value, for code that looks at the error itself.
  unfoldable pub attempt : Io A → Io (Result A)
  attempt m os h = let (r, h') = m os h in (ok r, h')

  -- Fails if the value is an error.
  unfoldable pub lift : Result A → Io A
  lift r os h = (r, h)

module _ {ℓ κ} {A : Type ℓ} {B : Type κ} where
  abbrev pub continue : Result A → (A → Io B) → Os → History → Result B × History
  continue (ok a) f os h = f a os h
  continue (err e) f os h = (err e, h)

  infixl 10 ◌>>=◌
  unfoldable pub ◌>>=◌ : Io A → (A → Io B) → Io B
  ◌>>=◌ m f os h = let (r, h') = m os h in continue r f os h'

  infixl 10 ◌>>◌
  abbrev pub ◌>>◌ : Io A → Io B → Io B
  m >> n = m >>= λ _. n

  -- `defer cleanup`: runs `cleanup` after `m`, whatever `m` returned, and keeps that.
  unfoldable pub defer : Io B → Io A → Io A
  defer cleanup m os h = let (r, h') = m os h in (r, (cleanup os h').1)

abbrev pub of_error : Option Error → Result (Unit {0})
of_error none = ok tt
of_error (some e) = err e

-- The ways to make a call, one for each type of answer.
unfoldable pub act : Call → Io (Unit {0})
act c os h = (of_error (os.act h c), c ∷ h)

unfoldable pub ask_text : Call → Io Text
ask_text c os h = (os.text_of h c, c ∷ h)

unfoldable pub ask_names : Call → Io (List Text)
ask_names c os h = (os.names_of h c, c ∷ h)

unfoldable pub ask_info : Call → Io FileInfo
ask_info c os h = (os.info_of h c, c ∷ h)

unfoldable pub ask_number : Call → Io ℕ
ask_number c os h = (ok (os.number_of h c), c ∷ h)

unfoldable pub ask_int : Call → Io ℤ
ask_int c os h = (os.int_of h c, c ∷ h)

unfoldable pub ask_flag : Call → Io Bool
ask_flag c os h = (os.flag_of h c, c ∷ h)

unfoldable pub ask_http : Call → Io HttpReply
ask_http c os h = (os.http_of h c, c ∷ h)

-- A call whose error is dropped.
unfoldable pub act_ : Call → Io (Unit {0})
act_ c os h = (ok tt, c ∷ h)

-- `for _, x := range xs { body }`, where an error of the body returns
unfoldable pub for_each {ℓ} : {A : Type ℓ} → List A → (A → Io (Unit {0})) → Io (Unit {0})
unfolding ◌>>=◌ pure
for_each [] body = pure tt
for_each (x ∷ xs) body = body x >>= λ _. for_each xs body

unfoldable pub when : Bool → Io (Unit {0}) → Io (Unit {0})
unfolding pure
when b m = if b then m else pure tt

-- Everything that makes programs compute in a test.
abbrev pub outcome {ℓ} : {A : Type ℓ} → Result A × History → Result A
outcome r = r.0

abbrev pub history {ℓ} : {A : Type ℓ} → Result A × History → History
history r = r.1
