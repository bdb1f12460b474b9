-- ===== src/Base/Trim.antt =====
-- Texts that `strings.TrimSpace` and `bufio.ScanLines` leave as they are, and texts cut at a separator.
use k3os.Base.{ℕ, ◌≡◌, refl, ap, false, ◌==◌, some, [], ◌∷◌, ◌++◌, All, arith}
use k3os.Base.Text.{
  Text, is_space, has_prefix, split_two, trim_left, trim_right, trim_space, keep_unless_last_space,
  drop_cr,
}

trim_right-last :
    (s : Text) (d : ℕ) → is_space d ≡ false → trim_right (s ++ (d ∷ [])) ≡ s ++ (d ∷ [])
unfolding trim_right
trim_right-last [] d e = rw e refl
trim_right-last (c ∷ []) d e = rw e refl
trim_right-last (c ∷ b ∷ s) d e = ap (keep_unless_last_space c) (trim_right-last (b ∷ s) d e)

-- A text that begins and ends with something else than a space
pub trim_space-kept :
    (c d : ℕ) (s : Text)
    → is_space c ≡ false
    → is_space d ≡ false
    → trim_space (c ∷ (s ++ (d ∷ []))) ≡ c ∷ (s ++ (d ∷ []))
unfolding trim_space trim_left
trim_space-kept c d s first last = rw first (trim_right-last (c ∷ s) d last)

pub drop_cr-kept : (s : Text) (d : ℕ) → (d == 13) ≡ false → drop_cr (s ++ (d ∷ [])) ≡ s ++ (d ∷ [])
drop_cr-kept [] d e = rw e refl
drop_cr-kept (c ∷ []) d e = rw e refl
drop_cr-kept (c ∷ b ∷ s) d e = ap (λ t. c ∷ t) (drop_cr-kept (b ∷ s) d e)

-- A prefix without the separator lies before the separator.
pub has_prefix-cut :
    (sep : ℕ) (s rest p : Text)
    → All (λ c. (c == sep) ≡ false) p
    → has_prefix (s ++ (sep ∷ rest)) p ≡ has_prefix s p
unfolding has_prefix
has_prefix-cut sep s rest [] k = refl
has_prefix-cut sep [] rest (q ∷ p) (e, k) = ground arith
has_prefix-cut sep (c ∷ s) rest (q ∷ p) (e, k) = rw (has_prefix-cut sep s rest p k) refl

pub split_two-cut :
    (sep : ℕ) (s rest : Text)
    → All (λ c. (c == sep) ≡ false) s
    → split_two sep (s ++ (sep ∷ rest)) ≡ (s, some rest)
unfolding split_two
split_two-cut sep [] rest k = ground arith
split_two-cut sep (c ∷ s) rest (e, k) = rw (e, split_two-cut sep s rest k) refl
