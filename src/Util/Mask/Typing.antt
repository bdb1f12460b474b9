-- ===== src/Util/Mask/Typing.antt =====
-- pkg/util/prompt.go: the passwords that are read, and the bytes that were typed.
use k3os.Base.{
  ℕ, zero, suc, ◌+◌, ◌<◌, ◌≡◌, ◌↔◌, refl, sym, ap, ◌∙◌, append-nil, append_assoc, ◌||◌,
  if◌then◌else◌, List, [], ◌∷◌, ◌++◌, true, false, ◌==◌, arith, length, All, Bool-cases, inl, inr,
}
use k3os.Base.Text.{Text, =ᵗ-sound, =ᵗ-refl}
use k3os.Util.Mask.{
  Key, byte, read_error, Password, entered, refused, answered, max_bytes, is_enter, drop_last, edit,
  mask_loop, mask_password, confirm, ask_again, prompt_password,
}

-- A byte that the loop takes in and goes on.
abbrev pub IsTyped : ℕ → Type 0
IsTyped v = ((v == 13 || v == 10) ≡ false) × ((v == 3) ≡ false)

-- The password after the bytes.
pub edits : Text → Text → Text
edits p [] = p
edits p (v ∷ vs) = edits (edit p v) vs

abbrev pub keys_of : Text → List Key
keys_of [] = []
keys_of (v ∷ vs) = byte v ∷ keys_of vs

-- A byte that is no deletion, before bytes of which some are left and which delete some before them
abbrev pub survive : ℕ → Text × ℕ → Text × ℕ
survive v (left, zero) = (v ∷ left, 0)
survive v (left, suc deletions) = (left, deletions)

-- What is left of the bytes, and how many bytes before them they delete, read from the right: 127 and 8
-- delete the nearest byte before them that is neither a deletion, nor zero, nor deleted by another.
pub survivors : Text → Text × ℕ
survivors [] = ([], 0)
survivors (v ∷ vs) =
    let rest = survivors vs in
    if v == 127 || v == 8 then (rest.0, suc rest.1) else if v == 0 then rest else survive v rest

abbrev pub without_last : ℕ → Text → Text
without_last zero p = p
without_last (suc n) p = without_last n (drop_last p)

-- The password, of the one before and of what is left of the bytes
abbrev pub joined : Text → Text × ℕ → Text
joined p (left, deletions) = without_last deletions p ++ left

drop_last-append : (p : Text) (v : ℕ) → drop_last (p ++ v ∷ []) ≡ p
drop_last-append [] v = refl
drop_last-append (c ∷ []) v = refl
drop_last-append (c ∷ d ∷ p) v = ap (λ q. c ∷ q) (drop_last-append (d ∷ p) v)

joined-survive :
    (p : Text) (v : ℕ) (rest : Text × ℕ) → joined p (survive v rest) ≡ joined (p ++ v ∷ []) rest
joined-survive p v (left, zero) = sym (append_assoc p (v ∷ []) left)
joined-survive p v (left, suc deletions) =
    ap (λ q. without_last deletions q ++ left) (sym (drop_last-append p v))

joined-edit :
    (p : Text) (v : ℕ) (vs : Text)
    → joined p (survivors (v ∷ vs)) ≡ joined (edit p v) (survivors vs)
unfolding survivors edit
joined-edit p v vs = elim (Bool-cases (v == 127 || v == 8)) [
  | inl deletion ↦ rw deletion refl
  | inr other ↦ elim (Bool-cases (v == 0)) [
    | inl none_ ↦ rw (other, none_) refl
    | inr typed ↦ rw (other, typed) (joined-survive p v (survivors vs))
  ]
]

edits-survivors : (p vs : Text) → edits p vs ≡ joined p (survivors vs)
unfolding edits survivors
edits-survivors p [] = sym (append-nil p)
edits-survivors p (v ∷ vs) = edits-survivors (edit p v) vs ∙ sym (joined-edit p v vs)

mask_loop-typed :
    (n : ℕ) (p vs : Text) (e : ℕ) (rest : List Key)
    → All IsTyped vs
    → length vs < n
    → is_enter e ≡ true
    → mask_loop n p (keys_of vs ++ byte e ∷ rest) ≡ (entered (edits p vs), rest)
unfolding mask_loop edits
mask_loop-typed zero p vs e rest t l h = absurd (omega arith)
mask_loop-typed (suc n) p [] e rest t l h = ground arith
mask_loop-typed (suc n) p (v ∷ vs) e rest t l h =
    ground (arith, mask_loop-typed n (edit p v) vs e rest t.1)

-- Keys that were read as `p`.
pub record Read (n : ℕ) (p p' : Text) (keys rest : List Key) : Type 0 where
  pub typed : Text
  pub enter : ℕ
  pub is_enter_key : (enter == 13 || enter == 10) ≡ true
  pub keys_eq : keys ≡ keys_of typed ++ byte enter ∷ rest
  pub in_time : length typed < n
  pub all_typed : All IsTyped typed
  pub result : p' ≡ joined p (survivors typed)

Read-next :
    (n v : ℕ) (p p' : Text) (keys rest : List Key)
    → IsTyped v
    → Read n (edit p v) p' keys rest
    → Read (suc n) p p' (byte v ∷ keys) rest
unfolding edits
Read-next n v p p' keys rest t r = record {
  typed = v ∷ r.typed;
  enter = r.enter;
  is_enter_key = r.is_enter_key;
  keys_eq = ap (λ ks. byte v ∷ ks) r.keys_eq;
  in_time = omega (arith, r.in_time);
  all_typed = (t, r.all_typed);
  result = r.result ∙ sym (joined-edit p v r.typed);
}

mask_loop-Read :
    (n : ℕ) (p p' : Text) (keys rest : List Key)
    → mask_loop n p keys ≡ (entered p', rest)
    → Read n p p' keys rest
unfolding mask_loop edits
mask_loop-Read zero p p' keys rest h = absurd (ground arith)
mask_loop-Read (suc n) p p' [] rest h = absurd (ground arith)
mask_loop-Read (suc n) p p' (read_error ∷ keys) rest h = absurd (ground arith)
mask_loop-Read (suc n) p p' (byte v ∷ keys) rest h = elim (Bool-cases (is_enter v)) [
  | inl enter ↦ record {
    typed = [];
    enter = v;
    is_enter_key = enter;
    keys_eq = ground arith;
    in_time = omega arith;
    all_typed = tt;
    result = unfold survivors in (ground arith) ∙ sym (append-nil p);
  }
  | inr plain ↦ elim (Bool-cases (v == 3)) [
    | inl three ↦ absurd (ground arith)
    | inr other ↦
        Read-next n v p p' keys rest (plain, other)
          (mask_loop-Read n (edit p v) p' keys rest (ground arith))
  ]
]

-- `MaskPassword` returns a password exactly if at most 512 bytes, none of them an enter or an
-- interrupt, and then an enter were typed; the password is what was typed, without the zero
-- bytes and without each byte that a deletion after it takes away, and the keys after the enter are still to be read.
pub mask_password_iff :
    (keys rest : List Key) (p : Text)
    → (mask_password keys ≡ (entered p, rest)) ↔ Read (max_bytes + 1) [] p keys rest
unfolding mask_password
mask_password_iff keys rest p = (
  mask_loop-Read (max_bytes + 1) [] p keys rest,
  λ r.
      ap mask_password r.keys_eq
      ∙ mask_loop-typed (max_bytes + 1) [] r.typed r.enter rest r.all_typed r.in_time r.is_enter_key
      ∙ ap (λ q. (entered q, rest)) (edits-survivors [] r.typed ∙ sym r.result),
)

confirm-same :
    (rest : List Key) (c p : Text) (r : Password × List Key)
    → confirm p r ≡ (answered c true, rest)
    → (p ≡ c) × (r ≡ (entered c, rest))
confirm-same rest c p (entered q, keys) h = ground (arith, =ᵗ-sound p q)
confirm-same rest c p (refused f, keys) h = absurd (ground arith)

ask_again-confirmed :
    (rest : List Key) (c : Text) (r : Password × List Key)
    → ask_again r ≡ (answered c true, rest)
    → (after : List Key) × (r ≡ (entered c, after)) × (mask_password after ≡ (entered c, rest))
ask_again-confirmed rest c (entered p, keys) h =
    let (same, second) = confirm-same rest c p (mask_password keys) h in
    (keys, ap (λ q. (entered q, keys)) same, second)
ask_again-confirmed rest c (refused f, keys) h = absurd (ground arith)

-- A password counts as confirmed exactly if it was read twice, the second time from the keys that
-- the first reading left.
pub prompt_password_iff :
    (keys rest : List Key) (c : Text)
    → (prompt_password keys ≡ (answered c true, rest)) ↔ (
        (after : List Key) × (mask_password keys ≡ (entered c, after))
        × (mask_password after ≡ (entered c, rest)))
unfolding prompt_password
prompt_password_iff keys rest c =
    (ask_again-confirmed rest c (mask_password keys), λ (after, e₁, e₂). rw (e₁, e₂, =ᵗ-refl c))
