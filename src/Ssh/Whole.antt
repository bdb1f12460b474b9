-- ===== src/Ssh/Whole.antt =====
-- pkg/ssh/ssh.go: a file of keys of which each line ends with a newline.
use k3os.Base.{
  ◌≡◌, refl, ap, ◌∙◌, ◌⊎◌, inl, inr, Bool-cases, true, false, List, [], ◌∷◌, ◌++◌, append_assoc,
  map, All, All-append,
}
use k3os.Base.Text.{Text, text, contains, scan_lines, split, drop_cr}
use k3os.Base.Lines.{IsLine, scan_lines-line}
use k3os.Ssh.Keys.{add_key}
use k3os.Ssh.AddKey.{add_key_lem}

-- The file of these lines
pub text_of : List Text → Text
text_of [] = []
text_of (line ∷ lines) = line ++ (10 ∷ text_of lines)

text_of-append :
    (xs : List Text) (key : Text) → text_of xs ++ (key ++ text "\n") ≡ text_of (xs ++ key ∷ [])
unfolding text_of
text_of-append [] key = refl
text_of-append (x ∷ xs) key =
    append_assoc x (10 ∷ text_of xs) (key ++ text "\n")
    ∙ ap (λ t. x ++ (10 ∷ t)) (text_of-append xs key)

-- A reader finds the lines, each without a `\r` at its end.
scan_lines-text_of : (xs : List Text) → All IsLine xs → scan_lines (text_of xs) ≡ map drop_cr xs
unfolding text_of
scan_lines-text_of [] k = unfold scan_lines split in refl
scan_lines-text_of (x ∷ xs) (line, k) =
    scan_lines-line x (text_of xs) line ∙ ap (λ ys. drop_cr x ∷ ys) (scan_lines-text_of xs k)

-- The key becomes a line of its own: where the file is made of whole lines, it stays so; its lines are
-- those that it had, and after them the key, unless the file contained the key already, which leaves
-- it as it is. A reader finds just these lines, and the same key added again changes nothing.
pub add_key-lines :
    (lines : List Text) (key : Text)
    → All IsLine lines
    → IsLine key
    → (lines' : List Text) × (((contains (text_of lines) key ≡ true) × (lines' ≡ lines))
        ⊎ ((contains (text_of lines) key ≡ false) × (lines' ≡ lines ++ key ∷ [])))
      × (add_key (text_of lines) key ≡ text_of lines')
      × (scan_lines (add_key (text_of lines) key) ≡ map drop_cr lines')
      × (add_key (add_key (text_of lines) key) key ≡ add_key (text_of lines) key)
unfolding add_key
add_key-lines lines key whole line = elim (Bool-cases (contains (text_of lines) key)) [
  | inl there ↦ (
    lines,
    inl (there, refl),
    rw there refl,
    rw there (scan_lines-text_of lines whole),
    (add_key_lem (text_of lines) key).2,
  )
  | inr missing ↦ (
    lines ++ key ∷ [],
    inr (missing, refl),
    rw missing (text_of-append lines key),
    rw missing (
        ap scan_lines (text_of-append lines key)
        ∙ scan_lines-text_of (lines ++ key ∷ [])
            (All-append IsLine lines (key ∷ []) whole (line, tt))),
    (add_key_lem (text_of lines) key).2,
  )
]
