-- ===== src/Util/Mask/Progress.antt =====
-- pkg/util/prompt.go: what a password prompt leaves of the keys.
use k3os.Base.{ℕ, zero, suc, ◌+◌, ◌<◌, ◌≡◌, refl, List, [], ◌∷◌, Bool, length, arith}
use k3os.Base.Text.{Text}
use k3os.Util.Mask.{
  Key, byte, read_error, Password, entered, refused, answered, edit, mask_loop, mask_password,
  confirm, ask_again, prompt_password, max_bytes,
}

mask_loop-lt :
    (n : ℕ) (p p' : Text) (keys rest : List Key)
    → mask_loop n p keys ≡ (entered p', rest)
    → length rest < length keys
unfolding mask_loop
mask_loop-lt zero p p' keys rest h = absurd (ground arith)
mask_loop-lt (suc n) p p' [] rest h = absurd (ground arith)
mask_loop-lt (suc n) p p' (read_error ∷ keys) rest h = absurd (ground arith)
mask_loop-lt (suc n) p p' (byte v ∷ keys) rest h =
    ground (arith, mask_loop-lt n (edit p v) p' keys rest)

mask_password-lt :
    (keys rest : List Key) (p : Text)
    → mask_password keys ≡ (entered p, rest)
    → length rest < length keys
unfolding mask_password
mask_password-lt keys rest p h = mask_loop-lt (max_bytes + 1) [] p keys rest h

confirm-lt :
    (p c : Text) (same : Bool) (keys rest : List Key) (r : Password × List Key)
    → mask_password keys ≡ r
    → confirm p r ≡ (answered c same, rest)
    → length rest < length keys
confirm-lt p c same keys rest (entered q, keys') e h =
    let less = mask_password-lt keys keys' q e in ground arith
confirm-lt p c same keys rest (refused f, keys') e h = absurd (ground arith)

ask_again-lt :
    (c : Text) (same : Bool) (keys rest : List Key) (r : Password × List Key)
    → mask_password keys ≡ r
    → ask_again r ≡ (answered c same, rest)
    → length rest < length keys
ask_again-lt c same keys rest (entered p, keys') e h =
    let less = mask_password-lt keys keys' p e in
    let less' = confirm-lt p c same keys' rest (mask_password keys') refl h in omega arith
ask_again-lt c same keys rest (refused f, keys') e h = absurd (ground arith)

-- A prompt that is answered reads at least one key.
pub prompt_password-lt :
    (c : Text) (same : Bool) (keys rest : List Key)
    → prompt_password keys ≡ (answered c same, rest)
    → length rest < length keys
unfolding prompt_password
prompt_password-lt c same keys rest h = ask_again-lt c same keys rest (mask_password keys) refl h
