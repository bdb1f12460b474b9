-- ===== src/Config/Permissions/Octal.antt =====
-- pkg/config/config.go: `Permissions` on octal digits, and its range.
use k3os.Base.{
  ℕ, ◌+◌, ◌-◌, ◌*◌, ◌^◌, ◌<◌, ◌≡◌, refl, subst, some, List, [], ◌∷◌, All, inl, inr, Option-cases,
  arith,
}
use k3os.Base.Text.{Text}
use k3os.Base.Number.{ℤ, pos, negsuc, parse_int, digits, Within, parse_int-Within}
use k3os.Os.Call.{ok}
use k3os.Config.Permissions.{to_file_mode, permissions}

-- The value of digits in a base, the first one the highest.
unfoldable pub value : ℕ → ℕ → List ℕ → ℕ
value base acc [] = acc
value base acc (d ∷ ds) = value base (acc * base + d) ds

abbrev pub printed : List ℕ → Text
printed [] = []
printed (d ∷ ds) = (b'0' + d) ∷ printed ds

digits-printed :
    (acc : ℕ) (ds : List ℕ)
    → All (λ d. d < 8) ds
    → digits 8 acc (printed ds) ≡ some (value 8 acc ds)
unfolding digits value
digits-printed acc [] h = refl
digits-printed acc (d ∷ ds) h = ground (arith, digits-printed (acc * 8 + d) ds)

-- A mode of at least one octal digit and below 2 ^ 31 is read back from its digits.
pub permissions-printed :
    (d : ℕ) (ds : List ℕ)
    → All (λ d. d < 8) (d ∷ ds)
    → value 8 0 (d ∷ ds) < 2 ^ 31
    → permissions (printed (d ∷ ds)) ≡ ok (value 8 0 (d ∷ ds))
unfolding permissions parse_int
permissions-printed d ds h l = ground (arith, digits-printed 0 (d ∷ ds))

to_file_mode-lt : (i : ℤ) → Within (2 ^ 31) (2 ^ 31 - 1) i → to_file_mode i < 2 ^ 32
to_file_mode-lt (pos n) h = omega arith
to_file_mode-lt (negsuc n) h = omega arith

-- Every mode that is accepted fits the 32 bits of a file mode, negative numbers included.
pub permissions-lt : (raw : Text) (mode : ℕ) → permissions raw ≡ ok mode → mode < 2 ^ 32
unfolding permissions
permissions-lt [] mode h = ground arith
permissions-lt (c ∷ s) mode h = elim (Option-cases (parse_int 8 32 (c ∷ s))) [
  | inl bad ↦ absurd (ground arith)
  | inr (i, fits) ↦
      subst (λ m. m < 2 ^ 32) (ground arith)
        (to_file_mode-lt i (parse_int-Within 8 32 (c ∷ s) i fits))
]
