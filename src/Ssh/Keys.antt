-- ===== src/Ssh/Keys.antt =====
-- `getKey`, `authorizeSSHKey` and `SetAuthorizedKeys`. The pauses between attempts are left out.
use k3os.Base.{
  ℕ, zero, suc, ◌/◌, Option, none, some, List, [], ◌∷◌, ◌++◌, Bool, true, false, ltb, if◌then◌else◌,
}
use k3os.Base.Text.{Text, text, ◌=ᵗ◌, contains}
use k3os.Base.FilePath.{join_path}
use k3os.Base.Number.{ℤ}
use k3os.Os.Call.{
  not_exist, failed, Result, ok, err, FileInfo, HttpReply, http_get, stat, create, chmod, close,
  read_file, chown, mkdir,
}
use k3os.Os.Io.{
  Io, pure, raise, lift, attempt, act, ask_text, ask_info, ask_http, for_each, ◌>>=◌, ◌>>◌,
}
use k3os.Command.{message}
use k3os.Util.Files.{write_file_atomic}
use k3os.Ssh.Passwd.{find_user_home_dir}

-- `url.Parse`: the scheme and the opaque part, or `none` for an error
abbrev pub UrlParser : Type 0
UrlParser = Text → Option (Text × Text)

-- `fmt.Sprintf(providers[scheme], opaque)`, or the key itself
unfoldable pub key_url : Text → Text → Text → Text
unfolding ◌=ᵗ◌
key_url scheme opaque key =
    if scheme =ᵗ text "github"
    then text "https://github.com/" ++ (opaque ++ text ".keys")
    else if scheme =ᵗ text "gitlab"
    then text "https://gitlab.com/" ++ (opaque ++ text ".keys")
    else key

abbrev pub is_settled : Result HttpReply → Bool
is_settled (ok r) = true
is_settled (err e) = contains (message e) (text "unsupported protocol scheme")

-- The loop of `http.Get`, with the attempts that are left and the latest outcome.
unfoldable pub get_loop : ℕ → Text → Result HttpReply → Io HttpReply
unfolding contains lift attempt ask_http ◌>>=◌
get_loop zero url last = lift last
get_loop (suc n) url last =
    attempt (ask_http (http_get url)) >>= λ r. if is_settled r then lift r else get_loop n url r

abbrev pub key_of_reply : HttpReply → Result Text
key_of_reply r = if ltb 2 (r.status / 100) then err (failed (text "http status")) else r.body

unfoldable pub fetch_key : Text → Text → Text → Io Text
unfolding get_loop key_url
fetch_key scheme opaque key = do
  reply ← get_loop 10 (key_url scheme opaque key) (err (failed []))
  lift (key_of_reply reply)

abbrev pub key_from : Option (Text × Text) → Text → Bool → Io Text
key_from none key with_net = pure key
key_from (some ([], opaque)) key with_net = pure key
key_from (some (c ∷ scheme, opaque)) key false = pure []
key_from (some (c ∷ scheme, opaque)) key true = fetch_key (c ∷ scheme) opaque key

-- The file's text after a key was authorized
unfoldable pub add_key : Text → Text → Text
unfolding contains
add_key bytes key = if contains bytes key then bytes else bytes ++ (key ++ text "\n")

-- The part for a file that may be missing: it is made, and its information is read again.
abbrev pub info_or_create : Text → Result FileInfo → Io FileInfo
info_or_create file (ok info) = pure info
info_or_create file (err (failed e)) = raise (failed e)
info_or_create file (err (not_exist e)) = do
  act (create file)
  act (chmod file 0o600)
  act (close file)
  ask_info (stat file)

unfoldable pub authorize_key : Text → Text → ℤ → ℤ → Io (Unit {0})
unfolding pure raise act attempt ask_info ask_text ◌>>=◌ write_file_atomic add_key
authorize_key [] file uid gid = pure tt
authorize_key (c ∷ key) file uid gid = do
  looked ← attempt (ask_info (stat file))
  info ← info_or_create file looked
  bytes ← ask_text (read_file file)
  write_file_atomic file (add_key bytes (c ∷ key)) info.mode
  act (chown file uid gid)

module _ (parse_url : UrlParser) where
  -- `getKey`
  unfoldable pub get_key : Text → Bool → Io Text
  unfolding pure fetch_key
  get_key key with_net = key_from (parse_url key) key with_net

  -- `authorizeSSHKey`
  unfoldable pub authorize_ssh_key : Text → Text → ℤ → ℤ → Bool → Io (Unit {0})
  unfolding get_key authorize_key
  authorize_ssh_key key file uid gid with_net = do
    found ← get_key key with_net
    authorize_key found file uid gid

  abbrev pub make_if_missing : Text → Result FileInfo → Io (Unit {0})
  make_if_missing dir (ok info) = pure tt
  make_if_missing dir (err (not_exist e)) = act (mkdir dir 0o700)
  make_if_missing dir (err (failed e)) = raise (failed e)

  -- `SetAuthorizedKeys`; a key that cannot be authorized is logged.
  unfoldable pub set_authorized_keys : List Text → Bool → Io (Unit {0})
  unfolding authorize_ssh_key find_user_home_dir for_each
  set_authorized_keys keys with_net = do
    bytes ← ask_text (read_file (text "/etc/passwd"))
    user ← lift (find_user_home_dir bytes (text "rancher"))
    let dir = join_path (user.home_dir ∷ text ".ssh" ∷ [])
    looked ← attempt (ask_info (stat dir))
    make_if_missing dir looked
    act (chown dir user.uid user.gid)
    let file = join_path (dir ∷ text "authorized_keys" ∷ [])
    for_each keys
        λ key. attempt (authorize_ssh_key key file user.uid user.gid with_net) >>= λ _. pure tt
