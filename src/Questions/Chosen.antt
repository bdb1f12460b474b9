-- ===== src/Questions/Chosen.antt =====
-- pkg/questions/questions.go: the option that `PromptOptions` returns.
use k3os.Base.{
  ℕ, zero, suc, ◌+◌, ◌<◌, ◌≡◌, ◌⊎◌, refl, sym, ap, Option, none, some, List, [], ◌∷◌, ◌==◌, arith,
  Bool-cases, inl, inr,
}
use k3os.Base.Text.{Text, trim_space}
use k3os.Base.Number.{ℤ, pos, negsuc, atoi, itoa}
use k3os.Questions.{
  Answer, answer, input_error, or_default, in_range, def_string, number_choice, prompt_options,
}
use k3os.Questions.FirstAnswer.{first, prompt_options-first}

-- The text is the number of an option, counted from 1; `i` is that number less one.
abbrev pub IsChoice : ℕ → Text → ℕ → Type 0
IsChoice n ans i = (atoi ans ≡ some (pos (i + 1))) × (i < n)

-- The default as it stands in the question, or nothing for a negative one
abbrev pub default_text : Option ℕ → Text
default_text none = []
default_text (some def) = itoa (def + 1)

-- What counts as answered: the line without the space around, or the default if that is empty
abbrev pub answered_by : Text → Text → Text
answered_by [] def = def
answered_by (c ∷ s) def = c ∷ s

-- The first line that chooses an option, the option, and the lines after it
pub data Chosen (n : ℕ) (def : Text) : List Text → ℕ → List Text → Type 0 where
  here :
      (line : Text) (lines : List Text) (i : ℕ)
      → IsChoice n (answered_by (trim_space line) def) i
      → Chosen n def (line ∷ lines) i lines
  later :
      (line : Text) (lines rest : List Text) (i : ℕ)
      → ((j : ℕ) → IsChoice n (answered_by (trim_space line) def) j → ⊥)
      → Chosen n def lines i rest
      → Chosen n def (line ∷ lines) i rest

-- No line chooses an option.
abbrev pub NoneChosen : ℕ → Text → List Text → Type 0
NoneChosen n def [] = Unit
NoneChosen n def (line ∷ lines) =
    ((j : ℕ) → IsChoice n (answered_by (trim_space line) def) j → ⊥) × NoneChosen n def lines

in_range-choice :
    (n i : ℕ) (z : Option ℤ) → in_range n z ≡ some i → (z ≡ some (pos (i + 1))) × (i < n)
in_range-choice n i none h = absurd (ground arith)
in_range-choice n i (some (pos zero)) h = absurd (ground arith)
in_range-choice n i (some (pos (suc k))) h = (ground arith, ground arith)
in_range-choice n i (some (negsuc k)) h = absurd (ground arith)

in_range-none :
    (n j : ℕ) (z : Option ℤ) → in_range n z ≡ none → (z ≡ some (pos (j + 1))) → j < n → ⊥
in_range-none n j none h e l = ground arith
in_range-none n j (some (pos zero)) h e l = ground arith
in_range-none n j (some (pos (suc k))) h e l = ground arith
in_range-none n j (some (negsuc k)) h e l = ground arith

answered_by-or_default : (s def : Text) → or_default s def ≡ answered_by s def
answered_by-or_default [] def = refl
answered_by-or_default (c ∷ s) def = refl

default_text-def_string : (def : Option ℕ) → def_string def ≡ default_text def
default_text-def_string none = refl
default_text-def_string (some def) = refl

-- The answer of the loop is that of the first line that chooses an option.
abbrev pub ChosenFirst : ℕ → Text → List Text → Answer ℕ → Type 0
ChosenFirst n def lines r =
    ((i : ℕ) × (rest : List Text) × (r ≡ answer i rest) × Chosen n def lines i rest)
    ⊎ ((r ≡ input_error) × NoneChosen n def lines)

-- The line stands first, and the loop goes on with the lines after it if it chooses no option.
choice-ChosenFirst :
    (n : ℕ) (def line : Text) (lines : List Text) (o : Option ℕ) (again : Answer ℕ)
    → in_range n (atoi (answered_by (trim_space line) def)) ≡ o
    → ChosenFirst n def lines again
    → ChosenFirst n def (line ∷ lines) (elim o [ some a ↦ answer a lines | none ↦ again ])
choice-ChosenFirst n def line lines (some i) again fit rest =
    inl (i, lines, refl, here line lines i (in_range-choice n i _ fit))
choice-ChosenFirst n def line lines none again no_fit (inl (i, rest, e, k)) =
    inl (i, rest, e, later line lines rest i (λ j c. in_range-none n j _ no_fit c.0 c.1) k)
choice-ChosenFirst n def line lines none again no_fit (inr (e, k)) =
    inr (e, ((λ j c. in_range-none n j _ no_fit c.0 c.1), k))

first-Chosen :
    (n : ℕ) (def : Text) (lines : List Text)
    → ChosenFirst n def lines (first (number_choice n) def lines)
unfolding first number_choice
first-Chosen n def [] = inr (refl, tt)
first-Chosen n def (line ∷ lines) =
    choice-ChosenFirst n def line lines (in_range n (atoi (or_default (trim_space line) def)))
      (first (number_choice n) def lines)
      (ap (λ s. in_range n (atoi s)) (sym (answered_by-or_default (trim_space line) def)))
      (first-Chosen n def lines)

-- `PromptOptions` always ends. With one option it returns that option and reads no line. Otherwise it
-- returns the option of the first line that, without the space around and with the default in place of
-- an empty one, is the number of an option; and an input error if no line is.
pub prompt_options-Chosen :
    (def : Option ℕ) (n : ℕ) (lines : List Text)
    → ((n ≡ 1) × (prompt_options def n lines ≡ answer 0 lines))
      ⊎ ((n ≡ 1 → ⊥) × ChosenFirst n (default_text def) lines (prompt_options def n lines))
prompt_options-Chosen def n lines = elim (Bool-cases (n == 1)) [
  | inl one ↦ inl (ground arith, unfold prompt_options in rw one refl)
  | inr more ↦
      let differ : (n ≡ 1 → ⊥) = λ e. ground arith in
      inr (
        differ,
        rw (prompt_options-first def n lines differ, default_text-def_string def)
            (first-Chosen n (default_text def) lines),
      )
]
