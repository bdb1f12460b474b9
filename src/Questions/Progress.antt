-- ===== src/Questions/Progress.antt =====
-- pkg/questions/questions.go: what an answer leaves of the lines.
use k3os.Base.{
  suc, ◌<◌, ◌≡◌, ◌≢◌, refl, sym, ◌∙◌, Option, List, [], ◌∷◌, Bool, false, length, arith, ◌⊎◌, inl,
  inr, Option-cases, if◌then◌else◌,
}
use k3os.Base.Text.{Text, text, is_empty, trim_space}
use k3os.Questions.{
  Answer, answer, input_error, out_of_fuel, or_default, unless_empty, prompt, prompt_bool,
  yes_or_no,
}
use k3os.Questions.FirstAnswer.{first, prompt_bool-first}

pub Answer-cases {ℓ} :
    {A : Type ℓ} (q : Answer A)
    → ((a : A) × (rest : List Text) × (q ≡ answer a rest)) ⊎ (q ≡ input_error) ⊎ (q ≡ out_of_fuel)
Answer-cases (answer a rest) = inl (a, rest, refl)
Answer-cases input_error = inr (inl refl)
Answer-cases out_of_fuel = inr (inr refl)

-- An answer is a text that is not empty, and at least one line was read.
pub prompt_answer :
    (def : Text) (lines rest : List Text) (a : Text)
    → prompt def lines ≡ answer a rest
    → (is_empty a ≡ false) × (length rest < length lines)
unfolding prompt
prompt_answer def [] rest a h = absurd (ground arith)
prompt_answer def (line ∷ lines) rest a h =
    answered_by (or_default (trim_space line) def) (prompt_answer def lines rest a) h
  where
    answered_by :
        (ans : Text)
        → (prompt def lines ≡ answer a rest → (is_empty a ≡ false) × (length rest < length lines))
        → unless_empty ans lines (prompt def lines) ≡ answer a rest
        → (is_empty a ≡ false) × (length rest < suc (length lines))
    answered_by [] ih e = let (full, less) = ih e in (full, omega arith)
    answered_by (c ∷ s) ih e = (ground arith, ground arith)

first-lt {ℓ} :
    {A : Type ℓ} (accept : Text → Option A) (def : Text) (lines rest : List Text) (a : A)
    → first accept def lines ≡ answer a rest
    → length rest < length lines
unfolding first
first-lt accept def [] rest a h = absurd (ground arith)
first-lt accept def (line ∷ lines) rest a h =
    elim (Option-cases (accept (or_default (trim_space line) def))) [
      | inl no_fit ↦ let less = first-lt accept def lines rest a (ground arith) in omega arith
      | inr (b, fit) ↦ ground arith
    ]

-- The answer to a question for yes or no reads at least one line.
pub prompt_bool-lt :
    (def b : Bool) (lines rest : List Text)
    → prompt_bool def lines ≡ answer b rest
    → length rest < length lines
prompt_bool-lt def b lines rest h =
    first-lt yes_or_no (if def then text "y" else text "n") lines rest b
      (sym (prompt_bool-first def lines) ∙ h)

-- The fuel of the loops is never used up.
pub prompt-fuel : (def : Text) (lines : List Text) → prompt def lines ≢ out_of_fuel
unfolding prompt
prompt-fuel def [] h = absurd (ground arith)
prompt-fuel def (line ∷ lines) h =
    not_lost (or_default (trim_space line) def) (prompt-fuel def lines) h
  where
    not_lost :
        (ans : Text)
        → prompt def lines ≢ out_of_fuel
        → unless_empty ans lines (prompt def lines) ≢ out_of_fuel
    not_lost [] ih e = ih e
    not_lost (c ∷ s) ih e = absurd (ground arith)

first-fuel {ℓ} :
    {A : Type ℓ} (accept : Text → Option A) (def : Text) (lines : List Text)
    → first accept def lines ≢ out_of_fuel
unfolding first
first-fuel accept def [] h = absurd (ground arith)
first-fuel accept def (line ∷ lines) h =
    elim (Option-cases (accept (or_default (trim_space line) def))) [
      | inl no_fit ↦ first-fuel accept def lines (ground arith)
      | inr (b, fit) ↦ absurd (ground arith)
    ]

pub prompt_bool-fuel : (def : Bool) (lines : List Text) → prompt_bool def lines ≢ out_of_fuel
prompt_bool-fuel def lines h =
    first-fuel yes_or_no (if def then text "y" else text "n") lines
      (sym (prompt_bool-first def lines) ∙ h)
