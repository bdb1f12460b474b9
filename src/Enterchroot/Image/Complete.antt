-- ===== src/Enterchroot/Image/Complete.antt =====
-- pkg/enterchroot/enter.go: `inFile` on a file that is read without an error.
use k3os.Base.{
  ℕ, zero, suc, ◌+◌, ◌%◌, ◌<◌, ◌≡◌, refl, sym, ap, ◌∙◌, some, List, [], ◌∷◌, ◌++◌, append_assoc,
  false, ◌==◌, inl, inr, length, length-append, get_elem?, All, arith, Bool-cases, if◌then◌else◌,
}
use mathlib.Core.Option.{some-injective}
use k3os.Base.Text.{Text, text, to_lower}
use k3os.Enterchroot.Image.{
  u64, magic, Scan, more, hit, bad_index, scan, FileRead, chunk, Image, image_at, not_found,
  panicked, scan_file, in_file,
}
use k3os.Enterchroot.Image.Sound.{resume, scan-append}

-- None of the bytes is `c`.
abbrev pub Without : ℕ → Text → Type 0
Without c = All (λ b. (b == c) ≡ false)

get_elem?-append : (xs ys : Text) (y : ℕ) → get_elem? (xs ++ y ∷ ys) (length xs) ≡ some y
get_elem?-append [] ys y = refl
get_elem?-append (x ∷ xs) ys y = get_elem?-append xs ys y

module _ (first : ℕ) (others : Text) where
  abbrev test : Text
  test = first ∷ others

  -- Bytes that cannot begin a match are passed over.
  scan-Without :
      (offset : ℕ) (bytes : Text)
      → Without first bytes
      → offset < u64
      → (0 < length others)
      → scan test 0 offset bytes ≡ more 0 ((offset + length bytes) % u64)
  unfolding scan
  scan-Without offset [] w l k = ground arith
  scan-Without offset (b ∷ bytes) w l k = ground (arith, scan-Without ((offset + 1) % u64) bytes)

  -- A match that has begun goes on to its end.
  scan-through :
      (done todo after : Text) (c offset : ℕ)
      → test ≡ done ++ c ∷ todo
      → scan test (length done) offset (c ∷ todo ++ after)
        ≡ hit ((offset + length (c ∷ todo)) % u64)
  unfolding scan
  scan-through done [] after c offset e = ground (arith, at_done e, length_done e)
    where
      at_done : test ≡ done ++ c ∷ [] → get_elem? test (length done) ≡ some c
      at_done e = ap (λ s. get_elem? s (length done)) e ∙ get_elem?-append done [] c

      length_done : test ≡ done ++ c ∷ [] → length test ≡ length done + 1
      length_done e = ap (λ s. length s) e ∙ length-append done (c ∷ [])
  scan-through done (d ∷ todo) after c offset e = ground (
    arith,
    at_done e,
    length_done e,
    length-append done (c ∷ []),
    scan-through (done ++ c ∷ []) todo after d ((offset + 1) % u64)
        (e ∙ sym (append_assoc done (c ∷ []) (d ∷ todo))),
  )
    where
      at_done : test ≡ done ++ c ∷ d ∷ todo → get_elem? test (length done) ≡ some c
      at_done e = ap (λ s. get_elem? s (length done)) e ∙ get_elem?-append done (d ∷ todo) c

      length_done :
          test ≡ done ++ c ∷ d ∷ todo → length test ≡ length done + suc (suc (length todo))
      length_done e = ap (λ s. length s) e ∙ length-append done (c ∷ d ∷ todo)

abbrev pub chunks_of : List Text → List FileRead
chunks_of [] = []
chunks_of (c ∷ cs) = chunk c ∷ chunks_of cs

abbrev pub file_text : List Text → Text
file_text [] = []
file_text (c ∷ cs) = c ++ file_text cs

abbrev to_image : Scan → Image
to_image (more found offset) = not_found
to_image (hit start) = image_at start
to_image bad_index = panicked

-- A file that is read without an error is one long chunk.
scan_file-chunks_of :
    (needle : Text) (cs : List Text) (found offset : ℕ)
    → scan_file needle found offset (chunks_of cs)
      ≡ to_image (scan needle found offset (file_text cs))
unfolding scan_file
scan_file-chunks_of needle [] found offset = unfold scan in refl
scan_file-chunks_of needle (c ∷ cs) found offset =
    resumed (λ f o. scan_file-chunks_of needle cs f o) (scan needle found offset c)
    ∙ ap to_image (sym (scan-append needle c (file_text cs) found offset))
  where
    resumed :
        ((f o : ℕ)
          → scan_file needle f o (chunks_of cs) ≡ to_image (scan needle f o (file_text cs)))
        → (r : Scan)
        → elim r [
          | more f o ↦ scan_file needle f o (chunks_of cs)
          | hit start ↦ image_at start
          | bad_index ↦ panicked
        ]
          ≡ to_image (resume needle r (file_text cs))
    resumed ih (more f o) = ih f o
    resumed ih (hit start) = refl
    resumed ih bad_index = refl

abbrev sqmagic : Text
sqmagic = text "sqmagic_"

in_file-scan :
    (cs : List Text) (s : Text)
    → file_text cs ≡ s
    → in_file (chunks_of cs) ≡ to_image (scan (b'_' ∷ sqmagic) 0 0 s)
unfolding in_file
in_file-scan cs s e =
    scan_file-chunks_of (b'_' ∷ sqmagic) cs 0 0 ∙ ap (λ t. to_image (scan (b'_' ∷ sqmagic) 0 0 t)) e

-- The image of a file that is read without an error, and that holds the magic text in lower case
-- with no underscore anywhere before it, is found directly after that text, counted modulo 2 ^ 64,
-- however the reads cut the file.
pub in_file-found :
    (cs : List Text) (before after : Text)
    → file_text cs ≡ before ++ (to_lower magic ++ after)
    → Without b'_' before
    → in_file (chunks_of cs) ≡ image_at ((length before + 9) % u64)
in_file-found cs before after e w =
    in_file-scan cs (before ++ (b'_' ∷ sqmagic ++ after)) (unfold to_lower in e)
    ∙ ap to_image (
        scan-append (b'_' ∷ sqmagic) before (b'_' ∷ sqmagic ++ after) 0 0
        ∙ ap (λ r. resume (b'_' ∷ sqmagic) r (b'_' ∷ sqmagic ++ after))
            (scan-Without b'_' sqmagic 0 before w (omega arith) (omega arith))
        ∙ scan-through b'_' sqmagic [] sqmagic after b'_' ((0 + length before) % u64) refl
        ∙ ap hit (omega arith))

abbrev needle : Text
needle = b'_' ∷ sqmagic

get_elem?_lt : (s : Text) (n : ℕ) → n < length s → (t : ℕ) × (get_elem? s n ≡ some t)
get_elem?_lt [] n h = absurd (omega arith)
get_elem?_lt (c ∷ s) zero h = (c, refl)
get_elem?_lt (c ∷ s) (suc n) h = get_elem?_lt s n (omega arith)

last_is_underscore : (found t : ℕ) → get_elem? needle found ≡ some t → suc found ≡ 9 → t ≡ b'_'
last_is_underscore found t g e =
    let at_eight : found ≡ 8 = omega arith in
    some-injective t b'_' (sym g ∙ ap (λ n. get_elem? needle n) at_eight)

-- Without an underscore no match comes to its end.
scan-unfinished :
    (bytes : Text) (found offset : ℕ)
    → Without b'_' bytes
    → found < 9
    → (f o : ℕ) × (scan needle found offset bytes ≡ more f o)
unfolding scan
scan-unfinished [] found offset w l = (found, offset, refl)
scan-unfinished (b ∷ bytes) found offset w l =
    let (t, g) = get_elem?_lt needle found l in
    elim (Bool-cases (suc found == 9)) [
      | inl full ↦
          let underscore : t ≡ b'_' = last_is_underscore found t g (ground arith) in
          let (f, o, e) = scan-unfinished bytes 0 ((offset + 1) % u64) w.1 (omega arith) in
          (f, o, ground arith)
      | inr part ↦
          let next = if b == t then suc found else 0 in
          let (f, o, e) = scan-unfinished bytes next ((offset + 1) % u64) w.1 (ground arith) in
          (f, o, ground arith)
    ]

abbrev one_on : ℕ → ℕ
one_on offset = (offset + 1) % u64

abbrev ten_on : ℕ → ℕ
ten_on o = one_on (one_on (one_on (one_on (one_on (one_on (one_on (one_on (one_on (one_on o)))))))))

-- The second underscore ends the match that the first one began, and does not begin one.
scan_doubled : (offset : ℕ) → scan needle 0 offset (b'_' ∷ needle) ≡ more 1 (ten_on offset)
unfolding scan
scan_doubled offset = refl

-- The magic text is missed where one more underscore stands directly before it and no other
-- underscore stands before or after: of a file that is read without an error, and holds an image
-- that begins so, `inFile` says that there is none.
pub in_file-missed :
    (cs : List Text) (before after : Text)
    → file_text cs ≡ before ++ (b'_' ∷ to_lower magic ++ after)
    → Without b'_' before
    → Without b'_' after
    → in_file (chunks_of cs) ≡ not_found
in_file-missed cs before after e w v =
    let from = ten_on ((0 + length before) % u64) in
    let (f, o, tail) = scan-unfinished after 1 from v (omega arith) in
    in_file-scan cs (before ++ (b'_' ∷ needle ++ after)) (unfold to_lower in e)
    ∙ ap to_image (
        scan-append needle before (b'_' ∷ needle ++ after) 0 0
        ∙ ap (λ r. resume needle r (b'_' ∷ needle ++ after))
            (scan-Without b'_' sqmagic 0 before w (omega arith) (omega arith))
        ∙ scan-append needle (b'_' ∷ needle) after 0 ((0 + length before) % u64)
        ∙ ap (λ r. resume needle r after) (scan_doubled ((0 + length before) % u64))
        ∙ tail)
