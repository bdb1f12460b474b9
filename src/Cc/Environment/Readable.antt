-- ===== src/Cc/Environment/Readable.antt =====
-- pkg/cc/funcs.go: the lines of /etc/environment that `ApplyEnvironment` reads as they were written.
use k3os.Base.{
  ℕ, ◌≡◌, refl, ap, sym, ◌∙◌, true, false, ◌==◌, ltb, Option, some, [], ◌∷◌, ◌++◌, append_assoc,
  All, All-append, arith,
}
use k3os.Base.Text.{
  Text, text, is_space, has_prefix, trim_space, scan_lines, split, split_two, drop_cr,
}
use k3os.Base.Lines.{IsLine, scan_lines-line}
use k3os.Base.Trim.{trim_space-kept, drop_cr-kept, has_prefix-cut, split_two-cut}
use k3os.Config.{StringMap}
use k3os.Cc.Environment.{
  put, put_all, trim_prefix, byte_length, read_line, read_lines, environment_text,
}

-- A name of a variable: without `=` and line ends, with no space around, and not taken for a comment or
-- for the word export.
pub record IsName (key : Text) : Type 0 where
  pub first : ℕ
  pub others : Text
  pub spelled : key ≡ first ∷ others
  pub no_space : is_space first ≡ false
  pub no_comment : (first == b'#') ≡ false
  pub no_separator : All (λ c. (c == b'=') ≡ false) key
  pub one_line : IsLine key
  pub no_export : has_prefix key (text "export") ≡ false

module _ (quote : Text → Text) (unquote : Text → Option Text) where
  -- What `strconv.Quote` makes of the value: one line between quotation marks, of which `Unquote` makes
  -- the value.
  pub record IsQuoted (val : Text) : Type 0 where
    pub body : Text
    pub marks : quote val ≡ b'"' ∷ (body ++ (b'"' ∷ []))
    pub one_line : IsLine (quote val)
    pub back : unquote (quote val) ≡ some val

  abbrev pub IsVariable : Text × Text → Type 0
  IsVariable (key, val) = IsName key × IsQuoted val

  read_line-pair :
      (line key raw val : Text) (env : StringMap)
      → trim_space line ≡ line
      → has_prefix line (text "export") ≡ false
      → has_prefix line (text "#") ≡ false
      → ltb 1 (byte_length line) ≡ true
      → split_two b'=' line ≡ (key, some raw)
      → unquote raw ≡ some val
      → read_line quote unquote line env ≡ put key val env
  unfolding read_line trim_prefix
  read_line-pair line key raw val env trimmed plain read long cut back =
      rw (trimmed, plain, trimmed, read, long, cut, back) refl

  byte_length-two : (c d : ℕ) (s : Text) → ltb 1 (byte_length (c ∷ d ∷ s)) ≡ true
  unfolding byte_length
  byte_length-two c d s = ground arith

  -- The line of a variable, without its end
  abbrev pub line_of : Text → Text → Text
  line_of key val = key ++ (b'=' ∷ quote val)

  line_of-marks :
      (key val : Text) (n : IsName key) (q : IsQuoted val)
      → line_of key val ≡ n.first ∷ ((n.others ++ (b'=' ∷ b'"' ∷ q.body)) ++ (b'"' ∷ []))
  line_of-marks key val n q =
      rw (n.spelled, q.marks)
        (ap (λ t. n.first ∷ t) (sym (append_assoc n.others (b'=' ∷ b'"' ∷ q.body) (b'"' ∷ []))))

  line_of-long :
      (key val : Text) → IsName key → IsQuoted val → ltb 1 (byte_length (line_of key val)) ≡ true
  line_of-long key val n q = rw (n.spelled, q.marks) (second n.others)
    where
      second :
          (s : Text)
          → ltb 1 (byte_length (n.first ∷ (s ++ (b'=' ∷ b'"' ∷ (q.body ++ (b'"' ∷ [])))))) ≡ true
      second [] = byte_length-two n.first b'=' _
      second (c ∷ s) = byte_length-two n.first c _

  -- The line is read as the variable.
  read_line-line_of :
      (key val : Text) (env : StringMap)
      → IsName key
      → IsQuoted val
      → read_line quote unquote (line_of key val) env ≡ put key val env
  read_line-line_of key val env n q =
      read_line-pair (line_of key val) key (quote val) val env
        (rw (line_of-marks key val n q)
          (trim_space-kept n.first b'"' _ n.no_space (unfold is_space in refl)))
        (has_prefix-cut b'=' key (quote val) (text "export")
            (refl, (refl, (refl, (refl, (refl, (refl, tt))))))
          ∙ n.no_export)
        (rw n.spelled (unfold has_prefix in rw n.no_comment refl)) (line_of-long key val n q)
        (split_two-cut b'=' key (quote val) n.no_separator) q.back

  drop_cr-line_of :
      (key val : Text) → IsName key → IsQuoted val → drop_cr (line_of key val) ≡ line_of key val
  drop_cr-line_of key val n q =
      rw (line_of-marks key val n q)
        (drop_cr-kept (n.first ∷ (n.others ++ (b'=' ∷ b'"' ∷ q.body))) b'"' refl)

  environment_text-line :
      (key val : Text) (env : StringMap)
      → environment_text quote unquote ((key, val) ∷ env)
        ≡ line_of key val ++ (10 ∷ environment_text quote unquote env)
  environment_text-line key val env =
      sym (append_assoc key (b'=' ∷ quote val) (10 ∷ environment_text quote unquote env))

  -- The text is read as these variables, put one after the other.
  pub read_lines-environment_text :
      (written env : StringMap)
      → All IsVariable written
      → read_lines quote unquote (scan_lines (environment_text quote unquote written)) env
        ≡ put_all written env
  unfolding read_lines put_all
  read_lines-environment_text [] env k = unfold scan_lines split in refl
  read_lines-environment_text ((key, val) ∷ written) env ((n, q), k) =
      rw (environment_text-line key val written) (
        rw
          (scan_lines-line (line_of key val) (environment_text quote unquote written)
            (All-append _ key (b'=' ∷ quote val) n.one_line (refl, q.one_line)))
          (ap (read_lines quote unquote (scan_lines (environment_text quote unquote written))) (
              ap (λ line. read_line quote unquote line env) (drop_cr-line_of key val n q)
              ∙ read_line-line_of key val env n q)
            ∙ read_lines-environment_text written (put key val env) k))
