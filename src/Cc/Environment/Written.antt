-- ===== src/Cc/Environment/Written.antt =====
-- pkg/cc/funcs.go: the text that `ApplyEnvironment` writes, as it reads it the next time.
use k3os.Base.{
  ◌≡◌, refl, ap, subst, ◌∙◌, Bool, true, false, ltb, Option, some, none, List, [], ◌∷◌, All, is_nil,
  arith, Bool-cases, inl, inr, if◌then◌else◌,
}
use k3os.Base.Text.{
  Text, text, ◌=ᵗ◌, =ᵗ_iff, =ᵗ-sound, has_prefix, trim_space, scan_lines, split_two,
}
use k3os.Os.Call.{Result, ok, err, Os, History, read_file, write_file}
use k3os.Os.Io.{attempt, act, ask_text, lift, ◌>>=◌}
use k3os.Config.{K3os, StringMap}
use k3os.Cc.Environment.{
  put, get, put_all, put_pair, trim_prefix, byte_length, read_line, read_lines, read_environment,
  merged, environment_text, apply_environment,
}
use k3os.Cc.Environment.Precedence.{NodupKeys, or_else, get-put, get-put_all}
use k3os.Cc.Environment.Readable.{IsVariable, read_lines-environment_text}

put-NodupKeys : (key val : Text) (env : StringMap) → NodupKeys env → NodupKeys (put key val env)
unfolding put get
put-NodupKeys key val [] u = (refl, tt)
put-NodupKeys key val ((k, v) ∷ env) (new, u) = elim (Bool-cases (k =ᵗ key)) [
  | inl same ↦ rw same (subst (λ j. get j env ≡ none) (=ᵗ-sound k key same) new, u)
  | inr differs ↦ rw differs (
    ground (arith, get-put key val k env, =ᵗ_iff key k, =ᵗ_iff k key),
    put-NodupKeys key val env u,
  )
]

put_all-NodupKeys : (entries env : StringMap) → NodupKeys env → NodupKeys (put_all entries env)
unfolding put_all
put_all-NodupKeys [] env u = u
put_all-NodupKeys ((k, v) ∷ entries) env u =
    put_all-NodupKeys entries (put k v env) (put-NodupKeys k v env u)

put_pair-NodupKeys :
    (quote : Text → Text) (unquote : Text → Option Text) (pair : Text × Option Text)
    (env : StringMap)
    → NodupKeys env
    → NodupKeys (put_pair quote unquote pair env)
put_pair-NodupKeys quote unquote (key, raw) env u = put-NodupKeys key _ env u

read_line-NodupKeys :
    (quote : Text → Text) (unquote : Text → Option Text) (raw_line : Text) (env : StringMap)
    → NodupKeys env
    → NodupKeys (read_line quote unquote raw_line env)
unfolding read_line
read_line-NodupKeys quote unquote raw_line env u =
    let line = trim_space raw_line in
    let entry = trim_space (trim_prefix line (text "export")) in
    kept (has_prefix line (text "#")) (ltb 1 (byte_length entry)) (split_two b'=' entry)
  where
    kept :
        (comment long : Bool) (pair : Text × Option Text)
        → NodupKeys (if comment then env else if long then put_pair quote unquote pair env else env)
    kept true long pair = u
    kept false true pair = put_pair-NodupKeys quote unquote pair env u
    kept false false pair = u

read_lines-NodupKeys :
    (quote : Text → Text) (unquote : Text → Option Text) (lines : List Text) (env : StringMap)
    → NodupKeys env
    → NodupKeys (read_lines quote unquote lines env)
unfolding read_lines
read_lines-NodupKeys quote unquote [] env u = u
read_lines-NodupKeys quote unquote (line ∷ lines) env u =
    read_lines-NodupKeys quote unquote lines (read_line quote unquote line env)
      (read_line-NodupKeys quote unquote line env u)

read_environment-NodupKeys :
    (quote : Text → Text) (unquote : Text → Option Text) (contents : Result Text)
    → NodupKeys (read_environment quote unquote contents)
read_environment-NodupKeys quote unquote (ok contents) =
    read_lines-NodupKeys quote unquote (scan_lines contents) [] tt
read_environment-NodupKeys quote unquote (err e) = tt

or_else-none : (o : Option Text) → or_else o none ≡ o
or_else-none none = refl
or_else-none (some v) = refl

-- What a reader finds in the file that holds the merged variables
get-read_merged :
    (quote : Text → Text) (unquote : Text → Option Text) (contents : Result Text)
    (configured : StringMap) (j : Text)
    → NodupKeys configured
    → All (IsVariable quote unquote) (merged quote unquote contents configured)
    → get j (
        read_environment quote unquote
          (ok (environment_text quote unquote (merged quote unquote contents configured))))
      ≡ or_else (get j configured) (get j (read_environment quote unquote contents))
unfolding merged get
get-read_merged quote unquote contents configured j u k =
    let env = read_environment quote unquote contents in
    let all = put_all configured env in
    ap (get j) (read_lines-environment_text quote unquote all [] k)
    ∙ get-put_all all [] j
        (put_all-NodupKeys configured env (read_environment-NodupKeys quote unquote contents))
    ∙ or_else-none (get j all)
    ∙ get-put_all configured env j u

-- Where variables are configured, with different names, `ApplyEnvironment` reads /etc/environment and
-- writes it anew. If the text that it writes is read again in the same way, a configured variable has the
-- configured value, and any other the value that was read before, or none. This where the variables that
-- are written have names that can be read, and `strconv.Unquote` undoes `Quote` on their values.
pub apply_environment-get :
    (quote : Text → Text) (unquote : Text → Option Text) (k : K3os) (os : Os) (h : History)
    → is_nil k.environment ≡ false
    → NodupKeys k.environment
    → All
        (IsVariable quote unquote)
        (merged quote unquote (os.text_of h (read_file (text "/etc/environment"))) k.environment)
    → (written : Text) × ((apply_environment quote unquote k os h).1
        ≡ write_file (text "/etc/environment") written 0o644
          ∷ read_file (text "/etc/environment")
          ∷ h)
      × ((j : Text)
          → get j (read_environment quote unquote (ok written))
            ≡ or_else (get j k.environment) (
                get j (
                  read_environment quote unquote
                    (os.text_of h (read_file (text "/etc/environment"))))))
unfolding apply_environment ◌>>=◌ act attempt ask_text lift
apply_environment-get quote unquote k os h some_configured u variables = (
  environment_text quote unquote
      (merged quote unquote (os.text_of h (read_file (text "/etc/environment"))) k.environment),
  rw some_configured refl,
  λ j.
      get-read_merged quote unquote (os.text_of h (read_file (text "/etc/environment")))
        k.environment j u variables,
)
