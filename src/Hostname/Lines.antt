-- ===== src/Hostname/Lines.antt =====
-- pkg/hostname/hostname.go: what a reader of /etc/hosts finds after `syncHostname` has written it.
use k3os.Base.{
  ℕ, ◌≡◌, refl, arith, ap, sym, ◌∙◌, ◌==◌, Bool-cases, inl, inr, false, List, [], ◌∷◌, ◌++◌,
  append_assoc, map, All, All-append, if◌then◌else◌,
}
use k3os.Base.Text.{
  Text, text, fields, ◌=ᵗ◌, is_space, split, trim_left, trim_right, keep_unless_last_space,
  trim_space, drop_cr, scan_lines,
}
use k3os.Base.Lines.{IsLine, any_of-IsLine, scan_lines-line, scan_lines-IsLine}
use k3os.Hostname.Hosts.{starts_with_field, is_local_name, rewrite_line, rewrite_hosts}

trim_left-IsLine : (s : Text) → IsLine s → IsLine (trim_left s)
unfolding trim_left
trim_left-IsLine [] k = tt
trim_left-IsLine (c ∷ s) (e, k) = elim (Bool-cases (is_space c)) [
  | inl space ↦ rw space (trim_left-IsLine s k)
  | inr ink ↦ rw ink (e, k)
]

keep_unless_last_space-IsLine :
    (c : ℕ) (s : Text) → (c == 10) ≡ false → IsLine s → IsLine (keep_unless_last_space c s)
keep_unless_last_space-IsLine c [] e k = elim (Bool-cases (is_space c)) [
  | inl space ↦ rw space tt
  | inr ink ↦ rw ink (e, tt)
]
keep_unless_last_space-IsLine c (d ∷ s) e k = (e, k)

trim_right-IsLine : (s : Text) → IsLine s → IsLine (trim_right s)
unfolding trim_right
trim_right-IsLine [] k = tt
trim_right-IsLine (c ∷ s) (e, k) =
    keep_unless_last_space-IsLine c (trim_right s) e (trim_right-IsLine s k)

no_cr : (c : ℕ) → is_space c ≡ false → (c == 13) ≡ false
unfolding is_space
no_cr c ink = ground (arith, ink)

drop_cr-keep_unless_last_space :
    (c : ℕ) (s : Text)
    → drop_cr s ≡ s
    → drop_cr (keep_unless_last_space c s) ≡ keep_unless_last_space c s
drop_cr-keep_unless_last_space c [] e = elim (Bool-cases (is_space c)) [
  | inl space ↦ rw space refl
  | inr ink ↦ rw (ink, no_cr c ink) refl
]
drop_cr-keep_unless_last_space c (d ∷ s) e = ap (λ t. c ∷ t) e

drop_cr-trim_right : (s : Text) → drop_cr (trim_right s) ≡ trim_right s
unfolding trim_right
drop_cr-trim_right [] = refl
drop_cr-trim_right (c ∷ s) = drop_cr-keep_unless_last_space c (trim_right s) (drop_cr-trim_right s)

abbrev pub first_field : Text → Text
first_field line = elim (fields line) [ [] ↦ [] | f ∷ fs ↦ f ]

is_local_name-first_field :
    (line : Text) → is_local_name line ≡ (first_field line =ᵗ text "127.0.1.1")
unfolding is_local_name
is_local_name-first_field line = by_first (fields line)
  where
    by_first :
        (fs : List Text)
        → starts_with_field (text "127.0.1.1") fs
          ≡ (elim fs [ [] ↦ [] | f ∷ rest ↦ f ] =ᵗ text "127.0.1.1")
    by_first [] = unfold ◌=ᵗ◌ in refl
    by_first (f ∷ fs) = refl

-- A line of the new file, for a line of the old one
abbrev pub new_line : Text → Text → Text
new_line name line =
    if first_field (trim_space line) =ᵗ text "127.0.1.1"
    then text "127.0.1.1 " ++ name
    else trim_space line

module _ (name : Text) (whole : IsLine name) (uncut : drop_cr name ≡ name) where
  new_line-IsLine : (line : Text) → IsLine line → IsLine (new_line name line)
  unfolding trim_space
  new_line-IsLine line k = elim (Bool-cases (first_field (trim_space line) =ᵗ text "127.0.1.1")) [
    | inl here ↦
        rw here
          (All-append _ (text "127.0.1.1 ") name (any_of-IsLine (text "127.0.1.1 ") refl) whole)
    | inr other ↦ rw other (trim_right-IsLine (trim_left line) (trim_left-IsLine line k))
  ]

  drop_cr-local : (s : Text) → drop_cr (text "127.0.1.1 " ++ s) ≡ text "127.0.1.1 " ++ drop_cr s
  drop_cr-local [] = refl
  drop_cr-local (c ∷ s) = refl

  drop_cr-new_line : (line : Text) → drop_cr (new_line name line) ≡ new_line name line
  unfolding trim_space
  drop_cr-new_line line = elim (Bool-cases (first_field (trim_space line) =ᵗ text "127.0.1.1")) [
    | inl here ↦ rw here (drop_cr-local name ∙ ap (λ t. text "127.0.1.1 " ++ t) uncut)
    | inr other ↦ rw other (drop_cr-trim_right (trim_left line))
  ]

  rewrite_line-new_line : (line : Text) → rewrite_line name line ≡ new_line name line ++ text "\n"
  unfolding rewrite_line
  rewrite_line-new_line line =
      elim (Bool-cases (first_field (trim_space line) =ᵗ text "127.0.1.1")) [
        | inl here ↦
            rw (is_local_name-first_field (trim_space line), here)
              (sym (append_assoc (text "127.0.1.1 ") name (text "\n")))
        | inr other ↦ rw (is_local_name-first_field (trim_space line), other) refl
      ]

  rewrite_hosts-lines :
      (lines : List Text)
      → All IsLine lines
      → scan_lines (rewrite_hosts name lines) ≡ map (new_line name) lines
  unfolding rewrite_hosts
  rewrite_hosts-lines [] k = unfold scan_lines split in refl
  rewrite_hosts-lines (line ∷ lines) (one, k) =
      ap scan_lines (
        ap (λ t. t ++ rewrite_hosts name lines) (rewrite_line-new_line line)
        ∙ append_assoc (new_line name line) (text "\n") (rewrite_hosts name lines))
      ∙ scan_lines-line (new_line name line) (rewrite_hosts name lines) (new_line-IsLine line one)
      ∙ rw (drop_cr-new_line line, rewrite_hosts-lines lines k) refl

  -- After the host name was set, a reader of /etc/hosts finds as many lines as before: the lines of
  -- 127.0.1.1 have the new name, and the others are those that were there, without the space around.
  pub scan_lines-rewrite_hosts :
      (hosts : Text)
      → scan_lines (rewrite_hosts name (scan_lines hosts)) ≡ map (new_line name) (scan_lines hosts)
  scan_lines-rewrite_hosts hosts = rewrite_hosts-lines (scan_lines hosts) (scan_lines-IsLine hosts)
