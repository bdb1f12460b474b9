-- ===== src/Ssh/Passwd.antt =====
-- `findUserHomeDir`
use k3os.Base.{Option, none, some, List, [], ◌∷◌, true, false}
use k3os.Base.Text.{Text, text, has_prefix, split}
use k3os.Base.Number.{ℤ, pos, atoi}
use k3os.Os.Call.{Error, failed, Result, ok, err}

pub record User : Type 0 where
  pub uid : ℤ
  pub gid : ℤ
  pub home_dir : Text

-- The values that the named results start from.
abbrev pub no_user : User
no_user = record { uid = pos 0; gid = pos 0; home_dir = [] }

abbrev invalid : Text → Error
invalid s = failed s

abbrev pub with_ids : Option ℤ → Option ℤ → Text → Result User
with_ids none gid home = err (invalid (text "uid"))
with_ids (some uid) none home = err (invalid (text "gid"))
with_ids (some uid) (some gid) home = ok (record { uid = uid; gid = gid; home_dir = home })

-- One line of the file: `none` is the `break` on a line with less than six fields.
unfoldable pub read_user : Text → Option (Result User)
unfolding atoi split
read_user line = elim (split b':' line) [
  | name ∷ password ∷ uid ∷ gid ∷ gecos ∷ home ∷ rest ↦ some (with_ids (atoi uid) (atoi gid) home)
  | _ ↦ none
]

unfoldable pub find_in : Text → User → List Text → Result User
find_in username user [] = ok user
find_in username user (line ∷ lines) = elim (has_prefix line username) [
  | false ↦ find_in username user lines
  | true ↦ elim (read_user line) [
    | none ↦ ok user
    | some (err e) ↦ err e
    | some (ok found) ↦ find_in username found lines
  ]
]

-- `findUserHomeDir`
unfoldable pub find_user_home_dir : Text → Text → Result User
unfolding find_in read_user has_prefix split
find_user_home_dir bytes username = find_in username no_user (split 10 bytes)
