-- ===== src/Base/Number.antt =====
-- `strconv`: signed integers in text.
use Prim.Native.Nat.{ℕ, zero, suc, ◌+◌, ◌-◌, ◌*◌, ◌/◌, ◌%◌, ◌^◌, ◌≤◌, ◌<◌}
use mathlib.Core.Path.{◌≡◌}
use mathlib.Core.Logic.{inl, inr}
use mathlib.Core.Bool.{◌&&◌}
use mathlib.Core.Option.{Option, none, some}
use mathlib.Core.List.{[], ◌∷◌}
use native.Mathlib.Omega.{arith}
use k3os.Base.Tests.{◌==◌, leb, ltb, if◌then◌else◌, Bool-cases}
use k3os.Base.Lists.{All}
use k3os.Base.Text.{Text}

-- `negsuc n` is -(n + 1).
pub data ℤ : Type 0 where
  pos : ℕ → ℤ
  negsuc : ℕ → ℤ

abbrev pub negate : ℕ → ℤ
negate zero = pos 0
negate (suc n) = negsuc n

-- The value of the digits after `acc`; `none` at a character that is no digit of the base.
-- `base` is at most 10, so a letter is no digit.
unfoldable pub digits : ℕ → ℕ → Text → Option ℕ
digits base acc [] = some acc
digits base acc (c ∷ s) =
    let rest = digits base (acc * base + (c - b'0')) s in
    if leb b'0' c && ltb c (b'0' + base) then rest else none

abbrev unsigned : ℕ → Text → Option ℕ
unsigned base [] = none
unsigned base (c ∷ s) = digits base 0 (c ∷ s)

abbrev at_most : ℕ → Option ℕ → Option ℕ
at_most limit none = none
at_most limit (some n) = if leb n limit then some n else none

abbrev to_pos : Option ℕ → Option ℤ
to_pos none = none
to_pos (some n) = some (pos n)

abbrev to_neg : Option ℕ → Option ℤ
to_neg none = none
to_neg (some n) = some (negate n)

-- `strconv.ParseInt(s, base, bits)` for a base of at most 10; `none` is any error, a value out of
-- range included.
unfoldable pub parse_int : ℕ → ℕ → Text → Option ℤ
unfolding digits
parse_int base bits [] = none
parse_int base bits (c ∷ s) =
    if c == b'-'
    then to_neg (at_most (2 ^ (bits - 1)) (unsigned base s))
    else if c == b'+'
    then to_pos (at_most (2 ^ (bits - 1) - 1) (unsigned base s))
    else to_pos (at_most (2 ^ (bits - 1) - 1) (unsigned base (c ∷ s)))

-- From -lo to hi
abbrev pub Within : ℕ → ℕ → ℤ → Type 0
Within lo hi (pos n) = n ≤ hi
Within lo hi (negsuc n) = suc n ≤ lo

to_pos-Within : (lo hi : ℕ) (o : Option ℕ) (i : ℤ) → to_pos (at_most hi o) ≡ some i → Within lo hi i
to_pos-Within lo hi none i h = absurd (ground arith)
to_pos-Within lo hi (some n) (pos m) h = ground arith
to_pos-Within lo hi (some n) (negsuc m) h = absurd (ground arith)

to_neg-Within : (lo hi : ℕ) (o : Option ℕ) (i : ℤ) → to_neg (at_most lo o) ≡ some i → Within lo hi i
to_neg-Within lo hi none i h = absurd (ground arith)
to_neg-Within lo hi (some zero) (pos m) h = ground arith
to_neg-Within lo hi (some (suc n)) (pos m) h = absurd (ground arith)
to_neg-Within lo hi (some zero) (negsuc m) h = absurd (ground arith)
to_neg-Within lo hi (some (suc n)) (negsuc m) h = ground arith

pub parse_int-Within :
    (base bits : ℕ) (s : Text) (i : ℤ)
    → parse_int base bits s ≡ some i
    → Within (2 ^ (bits - 1)) (2 ^ (bits - 1) - 1) i
unfolding parse_int
parse_int-Within base bits [] i h = absurd (ground arith)
parse_int-Within base bits (c ∷ s) i h = elim (Bool-cases (c == b'-')) [
  | inl minus ↦ to_neg-Within _ _ (unsigned base s) i (rw minus at h)
  | inr digit ↦ elim (Bool-cases (c == b'+')) [
    | inl plus ↦ to_pos-Within _ _ (unsigned base s) i (rw plus at (rw digit at h))
    | inr plain ↦ to_pos-Within _ _ (unsigned base (c ∷ s)) i (rw plain at (rw digit at h))
  ]
]

-- `strconv.Atoi(s)`, with `int` of 64 bits
unfoldable pub atoi : Text → Option ℤ
unfolding parse_int
atoi s = parse_int 10 64 s

-- The decimal digits of `n`, with fuel for at least as many digits.
itoa_fuel : ℕ → ℕ → Text → Text
itoa_fuel zero n acc = acc
itoa_fuel (suc f) n acc =
    let rest = itoa_fuel f (n / 10) ((b'0' + n % 10) ∷ acc) in
    if ltb n 10 then (b'0' + n) ∷ acc else rest

-- `strconv.Itoa(n)` for an `n` that is not negative
unfoldable pub itoa : ℕ → Text
unfolding itoa_fuel
itoa n = itoa_fuel (suc n) n []

itoa_fuel-All :
    (P : ℕ → Type 0) (each : (d : ℕ) → d < 10 → P (b'0' + d)) (f n : ℕ) (acc : Text)
    → All P acc
    → All P (itoa_fuel f n acc)
unfolding itoa_fuel
itoa_fuel-All P each zero n acc k = k
itoa_fuel-All P each (suc f) n acc k = elim (Bool-cases (ltb n 10)) [
  | inl small ↦ rw small (each n (ground arith), k)
  | inr large ↦
      rw large
        (itoa_fuel-All P each f (n / 10) ((b'0' + n % 10) ∷ acc) (each (n % 10) (omega arith), k))
]

-- What holds of the ten digits holds of all of a printed number.
pub itoa-All : (P : ℕ → Type 0) (n : ℕ) → ((d : ℕ) → d < 10 → P (b'0' + d)) → All P (itoa n)
unfolding itoa
itoa-All P n each = itoa_fuel-All P each (suc n) n [] tt
