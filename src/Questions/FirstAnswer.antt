-- ===== src/Questions/FirstAnswer.antt =====
-- pkg/questions/questions.go: the loops that ask until an answer fits.
use k3os.Base.{
  ℕ, zero, suc, ◌<◌, ◌≡◌, ◌≢◌, ◌⊎◌, refl, Option, none, some, List, [], ◌∷◌, Bool, ◌==◌, sym, ◌∙◌,
  length, arith, Bool-cases, Option-cases, inl, inr, if◌then◌else◌,
}
use k3os.Base.Text.{Text, text, trim_space}
use k3os.Base.Number.{ℤ, pos, negsuc, atoi}
use k3os.Questions.{
  Answer, answer, input_error, or_default, in_range, def_string, ask_until, number_choice,
  prompt_options, yes_or_no, prompt_bool,
}

-- The first line that, with the default in place of a blank one, is accepted.
unfoldable pub first {ℓ} : {A : Type ℓ} → (Text → Option A) → Text → List Text → Answer A
first accept def [] = input_error
first accept def (line ∷ lines) = elim (accept (or_default (trim_space line) def)) [
  | some a ↦ answer a lines
  | none ↦ first accept def lines
]

Text-cases : (s : Text) → (s ≡ []) ⊎ ((c : ℕ) × (r : Text) × (s ≡ c ∷ r))
Text-cases [] = inl refl
Text-cases (c ∷ r) = inr (c, r, refl)

-- The loop ends within its fuel at the first accepted line.
ask_until-first {ℓ} :
    {A : Type ℓ} (accept : Text → Option A) (def : Text) (lines : List Text) (fuel : ℕ)
    → accept [] ≡ none
    → length lines < fuel
    → ask_until accept fuel def lines ≡ first accept def lines
unfolding ask_until first
ask_until-first accept def lines zero e h = absurd (omega arith)
ask_until-first accept def [] (suc fuel) e h = refl
ask_until-first accept def (line ∷ lines) (suc fuel) e h =
    elim (Text-cases (or_default (trim_space line) def)) [
      | inl blank ↦ ground (arith, ask_until-first accept def lines (suc fuel) e)
      | inr (c, r, full) ↦ elim (Option-cases (accept (c ∷ r))) [
        | inl no_fit ↦ ground (arith, ask_until-first accept def lines fuel e)
        | inr (a, fit) ↦ ground arith
      ]
    ]

number_choice-nil : (n : ℕ) → number_choice n [] ≡ none
unfolding number_choice
number_choice-nil n = refl

yes_or_no-nil : yes_or_no [] ≡ none
unfolding yes_or_no
yes_or_no-nil = refl

in_range-lt : (n i : ℕ) (z : Option ℤ) → in_range n z ≡ some i → i < n
in_range-lt n i none h = absurd (ground arith)
in_range-lt n i (some (pos zero)) h = absurd (ground arith)
in_range-lt n i (some (pos (suc k))) h = ground arith
in_range-lt n i (some (negsuc k)) h = absurd (ground arith)

number_choice-lt : (n i : ℕ) (ans : Text) → number_choice n ans ≡ some i → i < n
unfolding number_choice
number_choice-lt n i ans h = in_range-lt n i (atoi ans) h

first-accepted {ℓ} :
    {A : Type ℓ} (accept : Text → Option A) (def : Text) (lines rest : List Text) (a : A)
    → first accept def lines ≡ answer a rest
    → (ans : Text) × (accept ans ≡ some a)
unfolding first
first-accepted accept def [] rest a h = absurd (ground arith)
first-accepted accept def (line ∷ lines) rest a h =
    let ans = or_default (trim_space line) def in
    elim (Option-cases (accept ans)) [
      | inl no_fit ↦ first-accepted accept def lines rest a (ground arith)
      | inr (b, fit) ↦ (ans, ground arith)
    ]

-- With two options or more, `PromptOptions` always ends: it returns the number of the first line
-- that, trimmed and with the default in place of a blank one, is a number from 1 to the count of the
-- options, less one; and an input error if no line is. The same holds with no option at all.
pub prompt_options-first :
    (def : Option ℕ) (n : ℕ) (lines : List Text)
    → n ≢ 1
    → prompt_options def n lines ≡ first (number_choice n) (def_string def) lines
unfolding prompt_options
prompt_options-first def n lines h = ground (
  arith,
  ask_until-first (number_choice n) (def_string def) lines (suc (length lines))
      (number_choice-nil n),
)

-- `PromptBool` always ends: it returns the answer of the first line that, trimmed and with the
-- default in place of a blank one, reads `y` or `n` in either case; and an input error if no line
-- does.
pub prompt_bool-first :
    (def : Bool) (lines : List Text)
    → prompt_bool def lines ≡ first yes_or_no (if def then text "y" else text "n") lines
unfolding prompt_bool
prompt_bool-first def lines =
    ask_until-first yes_or_no _ lines (suc (length lines)) yes_or_no-nil (omega arith)

-- The number that is returned is that of an option.
pub prompt_options-lt :
    (def : Option ℕ) (n : ℕ) (lines rest : List Text) (i : ℕ)
    → 0 < n
    → prompt_options def n lines ≡ answer i rest
    → i < n
unfolding prompt_options
prompt_options-lt def n lines rest i h e = elim (Bool-cases (n == 1)) [
  | inl one ↦ ground arith
  | inr more ↦
      let (ans, fit) =
        first-accepted (number_choice n) (def_string def) lines rest i
          (sym (prompt_options-first def n lines (ground arith)) ∙ e) in
      number_choice-lt n i ans fit
]
