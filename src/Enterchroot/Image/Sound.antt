-- ===== src/Enterchroot/Image/Sound.antt =====
-- pkg/enterchroot/enter.go: what stands before an image that `inFile` finds.
use k3os.Base.{
  ℕ, zero, suc, ◌+◌, ◌%◌, ◌≡◌, refl, sym, ap, subst, ◌∙◌, some, List, [], ◌∷◌, ◌++◌, append_assoc,
  append-nil, true, ◌&&◌, ◌==◌, inl, inr, length, length-append, get_elem?, arith, Bool-cases,
  Option-cases, if◌then◌else◌,
}
use k3os.Base.Text.{Text, to_lower}
use k3os.Enterchroot.Image.{
  u64, magic, Scan, more, hit, bad_index, scan, FileRead, chunk, read_error, image_at, scan_file,
  in_file,
}

abbrev pub take : ℕ → Text → Text
take zero s = []
take (suc n) [] = []
take (suc n) (c ∷ s) = c ∷ take n s

take-suc :
    (test : Text) (n t : ℕ) → get_elem? test n ≡ some t → take (suc n) test ≡ take n test ++ t ∷ []
take-suc [] n t h = absurd (ground arith)
take-suc (c ∷ s) zero t h = ground arith
take-suc (c ∷ s) (suc n) t h = ap (λ r. c ∷ r) (take-suc s n t h)

take-length : (test : Text) → take (length test) test ≡ test
take-length [] = refl
take-length (c ∷ s) = ap (λ r. c ∷ r) (take-length s)

-- The text `s` holds `test`, and `stop` is the offset after it.
pub record Holds (test s : Text) (stop : ℕ) : Type 0 where
  pub before : Text
  pub after : Text
  pub parts : s ≡ before ++ (test ++ after)
  pub stop_eq : stop ≡ (length before + length test) % u64

module _ (test : Text) where
  -- `seen` ends with the part of `test` that is matched, and `offset` is its length.
  record Seen (found offset : ℕ) (seen : Text) : Type 0 where
    front : Text
    ends : seen ≡ front ++ take found test
    counted : offset ≡ length seen % u64

  counted_next :
      (offset b : ℕ) (seen : Text)
      → offset ≡ length seen % u64
      → (offset + 1) % u64 ≡ length (seen ++ b ∷ []) % u64
  counted_next offset b seen e = omega (arith, length-append seen (b ∷ []))

  Seen-next :
      (found offset b t : ℕ) (seen : Text)
      → get_elem? test found ≡ some t
      → Seen found offset seen
      → Seen (if b == t then suc found else 0) ((offset + 1) % u64) (seen ++ b ∷ [])
  Seen-next found offset b t seen g s = elim (Bool-cases (b == t)) [
    | inl same ↦ rw same (record {
      front = s.front;
      ends =
          ap (λ r. r ++ b ∷ []) s.ends
          ∙ append_assoc s.front (take found test) (b ∷ [])
          ∙ ap (λ r. s.front ++ r) (matched same);
      counted = counted_next offset b seen s.counted;
    })
    | inr differ ↦ rw differ (record {
      front = seen ++ b ∷ [];
      ends = sym (append-nil (seen ++ b ∷ []));
      counted = counted_next offset b seen s.counted;
    })
  ]
    where
      matched : (b == t) ≡ true → take found test ++ b ∷ [] ≡ take (suc found) test
      matched same =
          ap (λ c. take found test ++ c ∷ []) (ground arith) ∙ sym (take-suc test found t g)

  Seen-ends :
      (offset : ℕ) (seen : Text) (s : Seen (length test) offset seen) → seen ≡ s.front ++ test
  Seen-ends offset seen s = s.ends ∙ ap (λ r. s.front ++ r) (take-length test)

  Holds-full :
      (found offset stop : ℕ) (seen bytes : Text)
      → Seen found offset seen
      → found ≡ length test
      → offset ≡ stop
      → Holds test (seen ++ bytes) stop
  Holds-full found offset stop seen bytes s full same =
      let s' : Seen (length test) offset seen = subst (λ n. Seen n offset seen) full s in
      let whole = Seen-ends offset seen s' in
      record {
        before = s'.front;
        after = bytes;
        parts = ap (λ r. r ++ bytes) whole ∙ append_assoc s'.front test bytes;
        stop_eq =
            omega (arith, same, s'.counted, ap {B = ℕ} length whole, length-append s'.front test);
      }

  scan-Holds :
      (found offset stop : ℕ) (seen bytes : Text)
      → Seen found offset seen
      → scan test found offset bytes ≡ hit stop
      → Holds test (seen ++ bytes) stop
  unfolding scan
  scan-Holds found offset stop seen [] s h = absurd (ground arith)
  scan-Holds found offset stop seen (b ∷ bytes) s h = elim (Option-cases (get_elem? test found)) [
    | inl out ↦ absurd (ground arith)
    | inr (t, g) ↦
        let next = Seen-next found offset b t seen g s in
        let found' = if b == t then suc found else 0 in
        elim (Bool-cases (b == t && suc found == length test)) [
          | inl full ↦ rw (append_assoc seen (b ∷ []) bytes) at (
              Holds-full found' ((offset + 1) % u64) stop (seen ++ b ∷ []) bytes next (ground arith)
                (ground arith))
          | inr part ↦ rw (append_assoc seen (b ∷ []) bytes) at (
              scan-Holds found' ((offset + 1) % u64) stop (seen ++ b ∷ []) bytes next
                (ground arith))
        ]
  ]

  abbrev pub resume : Scan → Text → Scan
  resume (more found offset) bytes = scan test found offset bytes
  resume (hit stop) bytes = hit stop
  resume bad_index bytes = bad_index

  -- Where the bytes are cut makes no difference.
  pub scan-append :
      (xs ys : Text) (found offset : ℕ)
      → scan test found offset (xs ++ ys) ≡ resume (scan test found offset xs) ys
  unfolding scan
  scan-append [] ys found offset = refl
  scan-append (x ∷ xs) ys found offset = elim (Option-cases (get_elem? test found)) [
    | inl out ↦ ground arith
    | inr (t, g) ↦
        ground (arith, scan-append xs ys (if x == t then suc found else 0) ((offset + 1) % u64))
  ]

-- What was read before the first error, or all of the file.
abbrev pub contents : List FileRead → Text
contents [] = []
contents (chunk bytes ∷ reads) = bytes ++ contents reads
contents (read_error ∷ reads) = []

pub scan_file-scan :
    (test : Text) (reads : List FileRead) (found offset start : ℕ)
    → scan_file test found offset reads ≡ image_at start
    → scan test found offset (contents reads) ≡ hit start
unfolding scan_file
scan_file-scan test [] found offset start h = absurd (ground arith)
scan_file-scan test (read_error ∷ reads) found offset start h = absurd (ground arith)
scan_file-scan test (chunk bytes ∷ reads) found offset start h =
    scan-append test bytes (contents reads) found offset
    ∙ resumed (λ f o k. scan_file-scan test reads f o start k) (scan test found offset bytes) refl
  where
    resumed :
        ((f o : ℕ)
          → scan_file test f o reads ≡ image_at start
          → scan test f o (contents reads) ≡ hit start)
        → (r : Scan) → scan test found offset bytes ≡ r
        → resume test r (contents reads) ≡ hit start
    resumed ih (more f o) e = ih f o (ground arith)
    resumed ih (hit stop) e = ground arith
    resumed ih bad_index e = absurd (ground arith)

-- If an image is found, then the file up to its first read error holds the magic text in lower case,
-- and the image starts where that ends, counted modulo 2 ^ 64, however the reads cut the file.
pub in_file-Holds :
    (reads : List FileRead) (start : ℕ)
    → in_file reads ≡ image_at start
    → Holds (to_lower magic) (contents reads) start
unfolding in_file
in_file-Holds reads start h =
    scan-Holds (to_lower magic) 0 0 start [] (contents reads)
      (record { front = []; ends = refl; counted = refl })
      (scan_file-scan (to_lower magic) reads 0 0 start h)
