-- ===== src/Entry/Relocated.antt =====
-- pkg/transferroot/transferroot.go: when the root is moved.
use k3os.Base.{◌≡◌, refl, arith, ◌⊎◌, inl, inr, Bool-cases, true, false, ◌∷◌}
use k3os.Base.Text.{text, ◌=ᵗ◌}
use k3os.Base.Number.{ℤ, pos, negsuc}
use k3os.Os.Call.{getenv, statfs, unsetenv, ok, Result-cases, Os, History}
use k3os.Os.Io.{pure, act_, attempt, ask_text, ask_int, ◌>>=◌}
use k3os.Os.Adds.{Since, Since-trans, Since-call}
use k3os.Enterchroot.Start.{get_env, text_or_empty}
use k3os.Enterchroot.Root.{wrapped}
use k3os.Transferroot.{◌==ℤ◌, Walk, in_memory, relocate}
use k3os.Transferroot.Kept.{IsKept}

==ℤ-sound : (a b : ℤ) → (a ==ℤ b) ≡ true → a ≡ b
==ℤ-sound (pos m) (pos n) e = ground arith
==ℤ-sound (pos m) (negsuc n) e = absurd (ground arith)
==ℤ-sound (negsuc m) (pos n) e = absurd (ground arith)
==ℤ-sound (negsuc m) (negsuc n) e = ground arith

in_memory-types :
    (type : ℤ) → in_memory type ≡ true → (type ≡ pos 0x01021994) ⊎ (type ≡ negsuc 2054924041)
in_memory-types type e = elim (Bool-cases (type ==ℤ pos 0x01021994)) [
  | inl tmpfs ↦ inl (==ℤ-sound type (pos 0x01021994) tmpfs)
  | inr other ↦ inr (==ℤ-sound type (negsuc 2054924041) (ground arith))
]

abbrev pub asked : History → History
asked h = getenv (text "K3OS_RELOCATED") ∷ h

module _ (os : Os) (h : History) where
  -- The program was not started by a move, and the file system of its root is a tmpfs, or one of the
  -- number that the code takes for that of a ramfs.
  abbrev pub NeedsMove : Type 0
  NeedsMove =
      (text_or_empty (os.text_of h (getenv (text "K3OS_RELOCATED"))) =ᵗ text "true" ≡ false)
      × (type : ℤ) × (os.int_of (asked h) (statfs (text ".")) ≡ ok type)
      × ((type ≡ pos 0x01021994) ⊎ (type ≡ negsuc 2054924041))

module _ (walk : Walk) (os : Os) (h : History) where
  asked-Since : Since IsKept h (asked h)
  asked-Since = Since-call IsKept (getenv (text "K3OS_RELOCATED")) h tt

  statfs-Since : Since IsKept h (statfs (text ".") ∷ asked h)
  statfs-Since =
      Since-trans IsKept h _ _ asked-Since (Since-call IsKept (statfs (text ".")) (asked h) tt)

  -- The move of the root removes no tree, moves no mount and changes no root, unless the variable
  -- `K3OS_RELOCATED` is not "true" and the number of the file system is one of those two.
  pub relocate-NeedsMove : Since IsKept h (relocate walk os h).1 ⊎ NeedsMove os h
  unfolding relocate ◌>>=◌ get_env attempt ask_text pure act_ wrapped ask_int
  relocate-NeedsMove =
      elim (Bool-cases
        (text_or_empty (os.text_of h (getenv (text "K3OS_RELOCATED"))) =ᵗ text "true")) [
          | inl e ↦ rw e (
              inl (
                Since-trans IsKept h _ _ asked-Since
                  (Since-call IsKept (unsetenv (text "K3OS_RELOCATED")) (asked h) tt)))
          | inr e ↦ rw e (elim (Result-cases (os.int_of (asked h) (statfs (text ".")))) [
            | inr (error, e') ↦ rw e' (inl statfs-Since)
            | inl (type, e') ↦ rw e' (elim (Bool-cases (in_memory type)) [
              | inl e'' ↦ inr (refl, type, refl, in_memory-types type e'')
              | inr e'' ↦ rw e'' (inl statfs-Since)
            ])
          ])
        ]
