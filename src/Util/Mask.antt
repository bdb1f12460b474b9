-- ===== src/Util/Mask.antt =====
-- pkg/util/prompt.go: reading a password. What is echoed to the terminal is left out, and so is the
-- raw mode that the terminal is put in.
pub mod Typing
pub mod Progress
use k3os.Base.{
  ℕ, zero, suc, ◌+◌, ◌-◌, ◌≤◌, ◌<◌, ◌≡◌, ◌≢◌, refl, ap, ◌∙◌, Option, none, some, List, [], ◌∷◌,
  ◌++◌, Bool, true, false, ◌||◌, ◌==◌, leb, ltb, arith, length, length-append, if◌then◌else◌,
  Bool-cases,
}
use k3os.Base.Text.{Text, text, ◌=ᵗ◌}

-- What `getCharacter` returns: a byte, or an error.
pub data Key : Type 0 where
  byte : ℕ → Key
  read_error : Key

pub data Failure : Type 0 where
  input_failed interrupted too_long : Failure

pub data Password : Type 0 where
  entered : Text → Password
  refused : Failure → Password

abbrev pub max_bytes : ℕ
max_bytes = 512

abbrev pub drop_last : Text → Text
drop_last [] = []
drop_last (c ∷ []) = []
drop_last (c ∷ d ∷ s) = c ∷ drop_last (d ∷ s)

abbrev pub is_delete : ℕ → Bool
is_delete v = v == 127 || v == 8

abbrev pub is_enter : ℕ → Bool
is_enter v = v == 13 || v == 10

-- The password so far after a byte that ends nothing: delete or backspace takes the last byte
-- away, and zero adds none.
unfoldable pub edit : Text → ℕ → Text
edit p v = if is_delete v then drop_last p else if v == 0 then p else p ++ v ∷ []

-- The loop of `MaskPassword`, with the rounds that are left.
unfoldable pub mask_loop : ℕ → Text → List Key → Password × List Key
unfolding edit
mask_loop zero p keys = (refused too_long, keys)
mask_loop (suc n) p [] = (refused input_failed, [])
mask_loop (suc n) p (read_error ∷ keys) = (refused input_failed, keys)
mask_loop (suc n) p (byte v ∷ keys) =
    let rest = mask_loop n (edit p v) keys in
    if is_delete v
    then rest
    else if is_enter v
    then (entered p, keys)
    else if v == 3
    then (refused interrupted, keys)
    else rest

-- `MaskPassword`: `for i = 0; i <= maxBytes; i++`
unfoldable pub mask_password : List Key → Password × List Key
unfolding mask_loop
mask_password keys = mask_loop (max_bytes + 1) [] keys

pub data Prompted : Type 0 where
  answered : Text → Bool → Prompted
  unanswered : Failure → Prompted

abbrev pub confirm : Text → Password × List Key → Prompted × List Key
confirm p (entered c, keys) = (answered c (p =ᵗ c), keys)
confirm p (refused f, keys) = (unanswered f, keys)

abbrev pub ask_again : Password × List Key → Prompted × List Key
ask_again (entered p, keys) = confirm p (mask_password keys)
ask_again (refused f, keys) = (unanswered f, keys)

-- `PromptPassword`
unfoldable pub prompt_password : List Key → Prompted × List Key
prompt_password keys = ask_again (mask_password keys)
