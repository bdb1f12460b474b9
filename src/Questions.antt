-- ===== src/Questions.antt =====
-- pkg/questions/questions.go: questions on the terminal. What is printed is left out.
-- A loop that asks again has fuel for one round more than there are lines.
pub mod Input
pub mod FirstAnswer
pub mod Chosen
pub mod Progress
use k3os.Base.{
  ℕ, zero, suc, ◌+◌, Option, none, some, List, [], ◌∷◌, ◌++◌, Bool, true, false, ltb, ◌==◌, length,
  if◌then◌else◌,
}
use k3os.Base.Text.{Text, text, ◌=ᵗ◌, trim_space, to_lower}
use k3os.Base.Number.{ℤ, pos, negsuc, atoi, itoa}

-- The answer, and the lines that are still to be read.
pub data Answer {ℓ} (A : Type ℓ) : Type ℓ where
  answer : A → List Text → Answer A
  input_error : Answer A
  out_of_fuel : Answer A

abbrev pub or_default : Text → Text → Text
or_default [] def = def
or_default (c ∷ s) def = c ∷ s

abbrev pub unless_empty : Text → List Text → Answer Text → Answer Text
unless_empty [] lines again = again
unless_empty (c ∷ s) lines again = answer (c ∷ s) lines

-- `Prompt`
unfoldable pub prompt : Text → List Text → Answer Text
prompt def [] = input_error
prompt def (line ∷ lines) =
    let again = prompt def lines in unless_empty (or_default (trim_space line) def) lines again

-- `PromptOptional`; its loop returns in the first round.
unfoldable pub prompt_optional : Text → List Text → Answer Text
prompt_optional def [] = input_error
prompt_optional def (line ∷ lines) = answer (or_default (trim_space line) def) lines

-- `num--; if num < 0 || num >= len(options)`
abbrev pub in_range : ℕ → Option ℤ → Option ℕ
in_range n none = none
in_range n (some (pos zero)) = none
in_range n (some (pos (suc i))) = if ltb i n then some i else none
in_range n (some (negsuc i)) = none

abbrev pub def_string : Option ℕ → Text
def_string none = []
def_string (some def) = itoa (def + 1)

-- The loop that both questions below make: it asks again until an answer is accepted.
unfoldable pub ask_until {ℓ} : {A : Type ℓ} → (Text → Option A) → ℕ → Text → List Text → Answer A
unfolding prompt
ask_until accept zero def lines = out_of_fuel
ask_until accept (suc fuel) def lines = elim (prompt def lines) [
  | input_error ↦ input_error
  | out_of_fuel ↦ out_of_fuel
  | answer ans rest ↦ elim (accept ans) [
    | some a ↦ answer a rest
    | none ↦ ask_until accept fuel def rest
  ]
]

unfoldable pub number_choice : ℕ → Text → Option ℕ
unfolding atoi
number_choice n ans = in_range n (atoi ans)

-- `PromptOptions`, and `PromptFormattedOptions`, which only numbers the options that are printed.
-- `n` is the number of options, and a `none` for the default is a negative one. The lines go on to the
-- next question; the source makes a new `bufio.Reader` for each, so this is a terminal, which
-- gives one line for each read.
unfoldable pub prompt_options : Option ℕ → ℕ → List Text → Answer ℕ
unfolding itoa
prompt_options def n lines =
    let asked = ask_until (number_choice n) (suc (length lines)) (def_string def) lines in
    if n == 1 then answer 0 lines else asked

unfoldable pub yes_or_no : Text → Option Bool
unfolding to_lower ◌=ᵗ◌
yes_or_no ans =
    if to_lower ans =ᵗ text "y"
    then some true
    else if to_lower ans =ᵗ text "n"
    then some false
    else none

-- `PromptBool`
unfoldable pub prompt_bool : Bool → List Text → Answer Bool
prompt_bool def lines =
    ask_until yes_or_no (suc (length lines)) (if def then text "y" else text "n") lines
