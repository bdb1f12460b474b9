-- ===== src/Ssh/AddKey.antt =====
-- pkg/ssh/ssh.go: the text of the file in `authorizeSSHKey`, and the requests of `getKey`.
use k3os.Base.{
  ℕ, zero, suc, ◌≤◌, ◌≡◌, refl, ap, ◌∙◌, true, List, [], ◌∷◌, ◌++◌, Bool-cases, inl, inr, arith,
  if◌then◌else◌,
}
use k3os.Base.Text.{Text, text, has_prefix, contains}
use k3os.Os.Call.{Call, Result, History, Os, HttpReply, http_get}
use k3os.Os.Io.{lift}
use k3os.Ssh.Keys.{add_key, get_loop, is_settled}

abbrev pub repeat : ℕ → Call → List Call
repeat zero c = []
repeat (suc n) c = c ∷ repeat n c

repeat-append : (n : ℕ) (c : Call) (h : List Call) → repeat n c ++ c ∷ h ≡ c ∷ (repeat n c ++ h)
repeat-append zero c h = refl
repeat-append (suc n) c h = ap (λ r. c ∷ r) (repeat-append n c h)

has_prefix-append : (s rest : Text) → has_prefix (s ++ rest) s ≡ true
unfolding has_prefix
has_prefix-append [] rest = refl
has_prefix-append (c ∷ s) rest = ground (arith, has_prefix-append s rest)

contains-append : (s key rest : Text) → contains (s ++ (key ++ rest)) key ≡ true
unfolding contains
contains-append [] [] [] = refl
contains-append [] [] (r ∷ rest) = unfold has_prefix in refl
contains-append [] (k ∷ key) rest = ground (arith, has_prefix-append (k ∷ key) rest)
contains-append (c ∷ s) key rest = ground (arith, contains-append s key rest)

has_prefix_refl : (s : Text) → has_prefix s s ≡ true
unfolding has_prefix
has_prefix_refl [] = refl
has_prefix_refl (c ∷ s) = ground (arith, has_prefix_refl s)

-- After a key was authorized the file holds it, begins with all that it held before, and stays as
-- it is when the key is authorized again.
pub add_key_lem :
    (bytes key : Text)
    → (contains (add_key bytes key) key ≡ true)
      × (has_prefix (add_key bytes key) bytes ≡ true)
      × (add_key (add_key bytes key) key ≡ add_key bytes key)
unfolding add_key
add_key_lem bytes key = elim (Bool-cases (contains bytes key)) [
  | inl there ↦ rw there (there, has_prefix_refl bytes, rw there)
  | inr missing ↦ rw missing (
    contains-append bytes key (text "\n"),
    has_prefix-append bytes (key ++ text "\n"),
    rw contains-append,
  )
]

-- The key is asked for at most as often as there are attempts left, and with the same request.
abbrev pub Requests : Text → ℕ → History → History → Type 0
Requests url n h h' = (count : ℕ) × (count ≤ n) × (h' ≡ repeat count (http_get url) ++ h)

settled_or_not :
    (url : Text) (n : ℕ) (r : Result HttpReply) (os : Os) (h : History)
    → Requests url n (http_get url ∷ h) (get_loop n url r os (http_get url ∷ h)).1
    → Requests url
        (suc n)
        h
        ((if is_settled r then lift r else get_loop n url r) os (http_get url ∷ h)).1
unfolding lift
settled_or_not url n r os h (count, le, e) = elim (Bool-cases (is_settled r)) [
  | inl yes_ ↦ rw yes_ (1, omega arith, refl)
  | inr not_ ↦ rw not_ (suc count, omega arith, e ∙ repeat-append count (http_get url) h)
]

-- `getKey` asks the network for a key at most as often as it has attempts left, always with the
-- same request and with no other call between.
pub get_loop-Requests :
    (url : Text) (n : ℕ) (last : Result HttpReply) (os : Os) (h : History)
    → Requests url n h (get_loop n url last os h).1
unfolding get_loop
get_loop-Requests url zero last os h = (0, omega arith, refl)
get_loop-Requests url (suc n) last os h =
    settled_or_not url n (os.http_of h (http_get url)) os h
      (get_loop-Requests url n (os.http_of h (http_get url)) os (http_get url ∷ h))
