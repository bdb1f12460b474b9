-- ===== src/Base/Text.antt =====
-- Text as a list of code points, and the functions of Go's `strings` and `bufio` packages that the
-- program calls.
use Prim.Native.Char.{code}
use Prim.Native.String.{String}
use Prim.Native.Nat.{ℕ, ◌+◌, ◌-◌}
use mathlib.Core.Path.{◌≡◌, refl, subst}
use mathlib.Core.Logic.{◌≢◌, ◌↔◌, inl, inr}
use mathlib.Core.Bool.{Bool, true, false, ◌&&◌, ◌||◌}
use mathlib.Core.Option.{Option, none, some}
use mathlib.Core.List.{List, [], ◌∷◌, ◌++◌, reverse}
use native.Mathlib.Omega.{arith}
use k3os.Base.Tests.{◌==◌, leb, ltb, if◌then◌else◌, Bool-cases}

abbrev pub Text : Type 0
Text = List ℕ

-- A literal.
abbrev pub text : String → Text
text String.[] = []
text (String.◌∷◌ c s) = code c ∷ text s

infix 50 ◌=ᵗ◌
unfoldable pub ◌=ᵗ◌ : Text → Text → Bool
[] =ᵗ [] = true
[] =ᵗ (y ∷ ys) = false
(x ∷ xs) =ᵗ [] = false
(x ∷ xs) =ᵗ (y ∷ ys) = x == y && xs =ᵗ ys

pub =ᵗ-sound : (s t : Text) → (s =ᵗ t) ≡ true → s ≡ t
unfolding ◌=ᵗ◌
=ᵗ-sound [] [] h = refl
=ᵗ-sound [] (y ∷ ys) h = cc
=ᵗ-sound (x ∷ xs) [] h = cc
=ᵗ-sound (x ∷ xs) (y ∷ ys) h = ground (arith, =ᵗ-sound xs ys)

pub =ᵗ-refl : (s : Text) → (s =ᵗ s) ≡ true
unfolding ◌=ᵗ◌
=ᵗ-refl [] = refl
=ᵗ-refl (x ∷ xs) = ground (arith, =ᵗ-refl xs)

pub =ᵗ_iff : (s t : Text) → ((s =ᵗ t) ≡ true) ↔ (s ≡ t)
=ᵗ_iff s t = (=ᵗ-sound s t, λ e. subst (λ u. (s =ᵗ u) ≡ true) e (=ᵗ-refl s))

pub =ᵗ-ne : (s t : Text) → s ≢ t → (s =ᵗ t) ≡ false
=ᵗ-ne s t h = elim (Bool-cases (s =ᵗ t)) [
  | inl same ↦ absurd (h (=ᵗ-sound s t same))
  | inr differ ↦ differ
]

abbrev pub is_empty : Text → Bool
is_empty [] = true
is_empty (x ∷ xs) = false

-- `unicode.IsSpace`
unfoldable pub is_space : ℕ → Bool
is_space c =
    (leb 9 c && leb c 13)
    || c == 32
    || c == 133
    || c == 160
    || c == 5760
    || (leb 8192 c && leb c 8202)
    || c == 8232
    || c == 8233
    || c == 8239
    || c == 8287
    || c == 12288

-- `strings.HasPrefix(s, prefix)`
unfoldable pub has_prefix : Text → Text → Bool
has_prefix s [] = true
has_prefix [] (p ∷ ps) = false
has_prefix (c ∷ s) (p ∷ ps) = c == p && has_prefix s ps

-- `strings.Contains(s, substr)`
unfoldable pub contains : Text → Text → Bool
unfolding has_prefix
contains [] sub = is_empty sub
contains (c ∷ s) sub = has_prefix (c ∷ s) sub || contains s sub

-- Puts a code point in front of the first piece.
abbrev pub on_first : ℕ → List Text → List Text
on_first c [] = (c ∷ []) ∷ []
on_first c (piece ∷ pieces) = (c ∷ piece) ∷ pieces

-- `strings.Split(s, sep)` for a separator of one code point
unfoldable pub split : ℕ → Text → List Text
split sep [] = [] ∷ []
split sep (c ∷ s) = let rest = split sep s in if c == sep then [] ∷ rest else on_first c rest

abbrev pub on_fst : ℕ → Text × Option Text → Text × Option Text
on_fst c (a, b) = (c ∷ a, b)

-- `strings.SplitN(s, sep, 2)`: the first piece, and the second if there is a separator
unfoldable pub split_two : ℕ → Text → Text × Option Text
split_two sep [] = ([], none)
split_two sep (c ∷ s) =
    let rest = split_two sep s in if c == sep then ([], some s) else on_fst c rest

-- `strings.Join(pieces, sep)`
unfoldable pub join : Text → List Text → Text
join sep [] = []
join sep (piece ∷ []) = piece
join sep (piece ∷ next ∷ pieces) = piece ++ (sep ++ join sep (next ∷ pieces))

unfoldable pub trim_left : Text → Text
unfolding is_space
trim_left [] = []
trim_left (c ∷ s) = let rest = trim_left s in if is_space c then rest else c ∷ s

abbrev pub keep_unless_last_space : ℕ → Text → Text
keep_unless_last_space c [] = if is_space c then [] else c ∷ []
keep_unless_last_space c (d ∷ s) = c ∷ d ∷ s

unfoldable pub trim_right : Text → Text
unfolding is_space
trim_right [] = []
trim_right (c ∷ s) = keep_unless_last_space c (trim_right s)

-- `strings.TrimSpace(s)`
unfoldable pub trim_space : Text → Text
unfolding trim_left trim_right
trim_space s = trim_right (trim_left s)

abbrev pub drop_empty : List Text → List Text
drop_empty [] = []
drop_empty ([] ∷ pieces) = drop_empty pieces
drop_empty ((c ∷ s) ∷ pieces) = (c ∷ s) ∷ drop_empty pieces

split_spaces : Text → List Text
unfolding is_space
split_spaces [] = [] ∷ []
split_spaces (c ∷ s) =
    let rest = split_spaces s in if is_space c then [] ∷ rest else on_first c rest

-- `strings.Fields(s)`
unfoldable pub fields : Text → List Text
unfolding split_spaces
fields s = drop_empty (split_spaces s)

-- One line of `bufio.ScanLines` without its `\r`
abbrev pub drop_cr : Text → Text
drop_cr [] = []
drop_cr (c ∷ []) = if c == 13 then [] else c ∷ []
drop_cr (c ∷ d ∷ s) = c ∷ drop_cr (d ∷ s)

abbrev pub scan_pieces : List Text → List Text
scan_pieces [] = []
scan_pieces ([] ∷ []) = []
scan_pieces ((c ∷ s) ∷ []) = drop_cr (c ∷ s) ∷ []
scan_pieces (piece ∷ next ∷ pieces) = drop_cr piece ∷ scan_pieces (next ∷ pieces)

-- The lines that a `bufio.Scanner` yields, each shorter than its buffer of 64 KiB.
unfoldable pub scan_lines : Text → List Text
unfolding split
scan_lines s = scan_pieces (split 10 s)

-- `strings.ToLower` on ASCII
unfoldable pub to_lower : Text → Text
to_lower [] = []
to_lower (c ∷ s) = (if leb b'A' c && leb c b'Z' then c + 32 else c) ∷ to_lower s

-- `strings.ToUpper` on ASCII
unfoldable pub to_upper : Text → Text
to_upper [] = []
to_upper (c ∷ s) = (if leb b'a' c && leb c b'z' then c - 32 else c) ∷ to_upper s

-- `strings.HasSuffix`
unfoldable pub has_suffix : Text → Text → Bool
unfolding has_prefix
has_suffix s suffix = has_prefix (reverse s) (reverse suffix)

-- The order of `sort.Strings`: text by text, code point by code point
infix 50 ◌≤ᵗ◌
unfoldable pub ◌≤ᵗ◌ : Text → Text → Bool
[] ≤ᵗ t = true
(x ∷ xs) ≤ᵗ [] = false
(x ∷ xs) ≤ᵗ (y ∷ ys) =
    let rest = xs ≤ᵗ ys in if ltb x y then true else if x == y then rest else false

unfoldable pub insert_text : Text → List Text → List Text
unfolding ◌≤ᵗ◌
insert_text t [] = t ∷ []
insert_text t (u ∷ us) = let rest = insert_text t us in if t ≤ᵗ u then t ∷ u ∷ us else u ∷ rest

-- `sort.Strings`
unfoldable pub sort_texts : List Text → List Text
unfolding insert_text
sort_texts [] = []
sort_texts (t ∷ ts) = insert_text t (sort_texts ts)
