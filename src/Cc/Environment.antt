-- ===== src/Cc/Environment.antt =====
-- `ApplyEnvironment` of pkg/cc/funcs.go. `strconv.Quote` and `Unquote` are parameters.
pub mod Precedence
pub mod Readable
pub mod Written
use k3os.Base.{
  ℕ, ◌+◌, Option, none, some, List, [], ◌∷◌, ◌++◌, Bool, true, false, is_nil, ltb, if◌then◌else◌,
}
use k3os.Base.Text.{Text, text, ◌=ᵗ◌, has_prefix, trim_space, split_two, scan_lines}
use k3os.Os.Call.{Result, ok, err, read_file, write_file}
use k3os.Os.Io.{Io, pure, attempt, act, ask_text, lift, ◌>>=◌, ◌>>◌}
use k3os.Config.{K3os, StringMap}
use k3os.Command.{with_context}

-- `env[key] = val`
unfoldable pub put : Text → Text → StringMap → StringMap
unfolding ◌=ᵗ◌
put key val [] = (key, val) ∷ []
put key val ((k, v) ∷ env) = if k =ᵗ key then (key, val) ∷ env else (k, v) ∷ put key val env

unfoldable pub get : Text → StringMap → Option Text
unfolding ◌=ᵗ◌
get key [] = none
get key ((k, v) ∷ env) = if k =ᵗ key then some v else get key env

-- `for key, val := range entries { env[key] = val }`
unfoldable pub put_all : StringMap → StringMap → StringMap
unfolding put
put_all [] env = env
put_all ((k, v) ∷ entries) env = put_all entries (put k v env)

abbrev pub drop : Text → Text → Text
drop [] s = s
drop (p ∷ ps) [] = []
drop (p ∷ ps) (c ∷ s) = drop ps s

-- `strings.TrimPrefix(s, prefix)`
unfoldable pub trim_prefix : Text → Text → Text
unfolding has_prefix
trim_prefix s prefix = if has_prefix s prefix then drop prefix s else s

-- `len(s)`: the bytes of a text in UTF-8
unfoldable pub byte_length : Text → ℕ
byte_length [] = 0
byte_length (c ∷ s) =
    (if ltb c 0x80 then 1 else if ltb c 0x800 then 2 else if ltb c 0x10000 then 3 else 4)
    + byte_length s

module _ (quote : Text → Text) (unquote : Text → Option Text) where
  abbrev pub or_raw : Text → Option Text → Text
  or_raw raw none = raw
  or_raw raw (some val) = val

  abbrev pub value_of : Option Text → Text
  value_of none = []
  value_of (some raw) = or_raw raw (unquote raw)

  abbrev pub put_pair : Text × Option Text → StringMap → StringMap
  put_pair (key, raw) env = put key (value_of raw) env

  -- One line of /etc/environment
  unfoldable pub read_line : Text → StringMap → StringMap
  unfolding put trim_space trim_prefix has_prefix split_two byte_length
  read_line raw_line env =
      let line = trim_space raw_line in
      let entry = trim_space (trim_prefix line (text "export")) in
      if has_prefix line (text "#")
      then env
      else if ltb 1 (byte_length entry)
      then put_pair (split_two b'=' entry) env
      else env

  unfoldable pub read_lines : List Text → StringMap → StringMap
  unfolding read_line
  read_lines [] env = env
  read_lines (line ∷ lines) env = read_lines lines (read_line line env)

  abbrev pub read_environment : Result Text → StringMap
  read_environment (ok contents) = read_lines (scan_lines contents) []
  read_environment (err e) = []

  -- The variables that are written: those of the file, with the configured ones on top.
  unfoldable pub merged : Result Text → StringMap → StringMap
  unfolding read_lines scan_lines put_all
  merged contents configured = put_all configured (read_environment contents)

  abbrev pub environment_text : StringMap → Text
  environment_text [] = []
  environment_text ((key, val) ∷ env) =
      key ++ (text "=" ++ (quote val ++ (text "\n" ++ environment_text env)))

  -- `ApplyEnvironment`
  unfoldable pub apply_environment : K3os → Io (Unit {0})
  unfolding pure attempt act ask_text lift ◌>>=◌ merged
  apply_environment k = if is_nil k.environment then pure tt else do
    contents ← attempt (ask_text (read_file (text "/etc/environment")))
    wrote ← attempt (
        act (
          write_file (text "/etc/environment") (environment_text (merged contents k.environment))
            0o644))
    lift (with_context (text "failed to write to /etc/environment: ") wrote)
