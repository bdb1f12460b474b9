-- ===== src/Ssh/Line.antt =====
-- pkg/ssh/ssh.go: the line of /etc/passwd that `findUserHomeDir` takes.
use k3os.Base.{
  ◌≡◌, refl, ap, true, false, some, List, [], ◌∷◌, ◌++◌, All, ◌⊎◌, inl, inr, Bool-cases,
  Option-cases, arith,
}
use k3os.Base.Text.{Text, has_prefix, split}
use k3os.Os.Call.{ok, Result-cases}
use k3os.Ssh.Passwd.{User, no_user, read_user, find_in, find_user_home_dir}

-- One of the lines begins with the name, and reads as the user.
pub record Found (username : Text) (lines : List Text) (user : User) : Type 0 where
  pub before : List Text
  pub line : Text
  pub after : List Text
  pub parts : lines ≡ before ++ line ∷ after
  pub begins : has_prefix line username ≡ true
  pub reads : read_user line ≡ some (ok user)

Found-later :
    (username line : Text) (lines : List Text) (user : User)
    → Found username lines user
    → Found username (line ∷ lines) user
Found-later username line lines user f = record {
  before = line ∷ f.before;
  line = f.line;
  after = f.after;
  parts = ap (λ ls. line ∷ ls) f.parts;
  begins = f.begins;
  reads = f.reads;
}

find_in-Found :
    (username : Text) (lines : List Text) (start user : User)
    → find_in username start lines ≡ ok user
    → (user ≡ start) ⊎ Found username lines user
unfolding find_in
find_in-Found username [] start user h = inl (ground arith)
find_in-Found username (line ∷ lines) start user h = elim (Bool-cases (has_prefix line username)) [
  | inr other ↦ elim (find_in-Found username lines start user (ground arith)) [
    | inl same ↦ inl same
    | inr f ↦ inr (Found-later username line lines user f)
  ]
  | inl begins ↦ elim (Option-cases (read_user line)) [
    | inl short ↦ inl (ground arith)
    | inr (r, reads) ↦ elim (Result-cases r) [
      | inr (e, bad) ↦ absurd (ground arith)
      | inl (found, good) ↦ elim (find_in-Found username lines found user (ground arith)) [
        | inr f ↦ inr (Found-later username line lines user f)
        | inl same ↦ inr (record {
          before = [];
          line = line;
          after = lines;
          parts = refl;
          begins = begins;
          reads = ground arith;
        })
      ]
    ]
  ]
]

-- If `findUserHomeDir` returns no error, then what it returns was read from a line of the file that
-- begins with the user's name, or it is the user with the ids 0 and no home directory.
pub find_user_home_dir-Found :
    (bytes username : Text) (user : User)
    → find_user_home_dir bytes username ≡ ok user
    → (user ≡ no_user) ⊎ Found username (split 10 bytes) user
unfolding find_user_home_dir
find_user_home_dir-Found bytes username user h =
    find_in-Found username (split 10 bytes) no_user user h

find_in-missing :
    (username : Text) (lines : List Text) (start : User)
    → All (λ line. has_prefix line username ≡ false) lines
    → find_in username start lines ≡ ok start
unfolding find_in
find_in-missing username [] start w = refl
find_in-missing username (line ∷ lines) start w =
    ground (arith, find_in-missing username lines start)

-- Where no line of the file begins with the user's name, `findUserHomeDir` returns no error, but the
-- user with the ids 0 and no home directory.
pub find_user_home_dir-no_user :
    (bytes username : Text)
    → All (λ line. has_prefix line username ≡ false) (split 10 bytes)
    → find_user_home_dir bytes username ≡ ok no_user
unfolding find_user_home_dir
find_user_home_dir-no_user bytes username w = find_in-missing username (split 10 bytes) no_user w
