-- ===== src/Base/Lines.antt =====
-- The lines of a text that a `bufio.Scanner` yields, and those that were put together to make it.
use Prim.Native.Nat.{ℕ}
use mathlib.Core.Path.{◌≡◌, refl, ap, ◌∙◌}
use mathlib.Core.Logic.{inl, inr}
use mathlib.Core.Bool.{false}
use mathlib.Core.List.{List, [], ◌∷◌, ◌++◌, append-nil}
use native.Mathlib.Omega.{arith}
use k3os.Base.Tests.{◌==◌, Bool-cases}
use k3os.Base.Lists.{any_of, All}
use k3os.Base.Text.{Text, split, on_first, drop_cr, scan_pieces, scan_lines}
use k3os.Base.Number.{itoa, itoa-All}

-- A text without the end of a line
abbrev pub IsLine : Text → Type 0
IsLine s = All (λ c. (c == 10) ≡ false) s

split_cons : (s : Text) → (piece : Text) × (pieces : List Text) × (split 10 s ≡ piece ∷ pieces)
unfolding split
split_cons [] = ([], [], refl)
split_cons (c ∷ s) = elim (Bool-cases (c == 10)) [
  | inl e ↦ ([], split 10 s, rw e refl)
  | inr e ↦ let (piece, pieces, e') = split_cons s in (c ∷ piece, pieces, rw (e, e') refl)
]

split-line :
    (line rest : Text) → IsLine line → split 10 (line ++ (10 ∷ rest)) ≡ line ∷ split 10 rest
unfolding split
split-line [] rest k = refl
split-line (c ∷ line) rest (e, k) = rw (e, split-line line rest k) refl

scan_pieces-next :
    (line piece : Text) (pieces : List Text)
    → scan_pieces (line ∷ piece ∷ pieces) ≡ drop_cr line ∷ scan_pieces (piece ∷ pieces)
scan_pieces-next [] piece pieces = refl
scan_pieces-next (c ∷ line) piece pieces = refl

pub scan_lines-line :
    (line rest : Text)
    → IsLine line
    → scan_lines (line ++ (10 ∷ rest)) ≡ drop_cr line ∷ scan_lines rest
unfolding scan_lines
scan_lines-line line rest k =
    let (piece, pieces, e) = split_cons rest in
    rw (split-line line rest k, e) (scan_pieces-next line piece pieces)

on_first-IsLine :
    (c : ℕ) (pieces : List Text)
    → (c == 10) ≡ false
    → All IsLine pieces
    → All IsLine (on_first c pieces)
on_first-IsLine c [] e k = ((e, tt), tt)
on_first-IsLine c (piece ∷ pieces) e (line, k) = ((e, line), k)

split-IsLine : (s : Text) → All IsLine (split 10 s)
unfolding split
split-IsLine [] = (tt, tt)
split-IsLine (c ∷ s) = elim (Bool-cases (c == 10)) [
  | inl e ↦ rw e (tt, split-IsLine s)
  | inr e ↦ rw e (on_first-IsLine c (split 10 s) e (split-IsLine s))
]

drop_cr-IsLine : (s : Text) → IsLine s → IsLine (drop_cr s)
drop_cr-IsLine [] k = tt
drop_cr-IsLine (c ∷ []) (e, k) = elim (Bool-cases (c == 13)) [
  | inl cr ↦ rw cr tt
  | inr other ↦ rw other (e, tt)
]
drop_cr-IsLine (c ∷ d ∷ s) (e, k) = (e, drop_cr-IsLine (d ∷ s) k)

scan_pieces-IsLine : (pieces : List Text) → All IsLine pieces → All IsLine (scan_pieces pieces)
scan_pieces-IsLine [] k = tt
scan_pieces-IsLine ([] ∷ []) k = tt
scan_pieces-IsLine ((c ∷ s) ∷ []) (line, k) = (drop_cr-IsLine (c ∷ s) line, tt)
scan_pieces-IsLine ([] ∷ next ∷ pieces) (line, k) = (tt, scan_pieces-IsLine (next ∷ pieces) k)
scan_pieces-IsLine ((c ∷ s) ∷ next ∷ pieces) (line, k) =
    (drop_cr-IsLine (c ∷ s) line, scan_pieces-IsLine (next ∷ pieces) k)

pub scan_lines-IsLine : (s : Text) → All IsLine (scan_lines s)
unfolding scan_lines
scan_lines-IsLine s = scan_pieces-IsLine (split 10 s) (split-IsLine s)

-- A text of which a test finds no end of a line
pub any_of-IsLine : (s : Text) → any_of (λ c. c == 10) s ≡ false → IsLine s
any_of-IsLine [] e = tt
any_of-IsLine (c ∷ s) e = (ground arith, any_of-IsLine s (ground arith))

pub itoa-IsLine : (n : ℕ) → IsLine (itoa n)
itoa-IsLine n = itoa-All (λ c. (c == 10) ≡ false) n λ d less. ground arith

pub drop_cr-append : (s : Text) (c : ℕ) (t : Text) → drop_cr (s ++ (c ∷ t)) ≡ s ++ drop_cr (c ∷ t)
drop_cr-append [] c t = refl
drop_cr-append (d ∷ []) c t = refl
drop_cr-append (d ∷ e ∷ s) c t = ap (λ u. d ∷ u) (drop_cr-append (e ∷ s) c t)

-- A line keeps its end where it is put behind a text that does not end with a `\r`.
pub drop_cr-behind : (s t : Text) → drop_cr s ≡ s → drop_cr t ≡ t → drop_cr (s ++ t) ≡ s ++ t
drop_cr-behind s [] e f = rw (append-nil s) e
drop_cr-behind s (c ∷ t) e f = drop_cr-append s c t ∙ ap (λ u. s ++ u) f
