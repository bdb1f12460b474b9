-- ===== src/WriteFile/Placed.antt =====
-- pkg/writefile/writefile.go: what a file has when it gets its name.
use k3os.Base.{
  ◌≡◌, refl, ◌⊎◌, inl, inr, ℕ, true, false, Bool-cases, none, some, List, [], ◌∷◌, ◌++◌,
  if◌then◌else◌, Option-cases,
}
use k3os.Base.Text.{Text, text, is_empty}
use k3os.Base.FilePath.{join_path, dir_name}
use k3os.Os.Call.{
  Call, Error, Result, ok, err, Os, History, FileInfo, stat, temp_file, write_file, close, chmod,
  rename, run,
}
use k3os.Os.Io.{Io, pure, attempt, ask_info, act, when, ◌>>=◌, ◌>>◌}
use k3os.Os.Adds.{Since, Since-refl, Since-trans, Since-call, Adds, Adds-bind, adds_rules}
use k3os.Os.Steps.{act_step, ask_text_step, lift_step, adds_step}
use k3os.Config.{File}
use k3os.Config.Permissions.{permissions}
use k3os.Util.Files.{directory_or_make, ensure_directory_exists}
use k3os.WriteFile.{write_decoded}

-- A call that gives no file a new name
abbrev pub IsNoRename : Call → Type 0
IsNoRename (rename from to) = ⊥
IsNoRename _ = Unit

ensure_directory_exists-Adds : (d : Text) → Adds IsNoRename (ensure_directory_exists d)
unfolding ensure_directory_exists
ensure_directory_exists-Adds d =
    Adds-bind IsNoRename (attempt (ask_info (stat d))) (directory_or_make d)
      (search (adds_rules, tt)) directory_or_make-Adds
  where
    directory_or_make-Adds : (r : Result FileInfo) → Adds IsNoRename (directory_or_make d r)
    directory_or_make-Adds (ok info) = search adds_rules
    directory_or_make-Adds (err e) = search (adds_rules, tt)

-- The calls that set the owner, if there is one
abbrev pub owner_calls : Text → Text → List Call
owner_calls owner temp =
    if is_empty owner then [] else run (text "chown" ∷ owner ∷ temp ∷ []) [] ∷ []

module _ (f : File) (path : Text) (os : Os) (start : History) where
  -- The calls since the temporary file was made, the latest first
  abbrev pub prepared : Text → ℕ → History → History
  prepared temp perm h =
      owner_calls f.owner temp
      ++ (chmod temp perm ∷ close temp ∷ write_file temp f.content perm ∷ h)

  -- There is no owner to give, or the system accepted to give it.
  abbrev pub Given : Text → History → Type 0
  Given temp h =
      (is_empty f.owner ≡ true) ⊎ (os.act h (run (text "chown" ∷ f.owner ∷ temp ∷ []) []) ≡ none)

  -- A file at the place of the temporary file has the content, the mode and the owner, since the
  -- system accepted these calls, and then it was to be given its name.
  pub record Named (r : Result Text × History) : Type 0 where
    pub temp : Text
    pub perm : ℕ
    pub before : History
    pub quiet : Since IsNoRename start before
    pub mode : permissions f.raw_file_permissions ≡ ok perm
    pub written : os.act before (write_file temp f.content perm) ≡ none
    pub set : os.act (close temp ∷ write_file temp f.content perm ∷ before) (chmod temp perm) ≡ none
    pub given : Given temp (chmod temp perm ∷ close temp ∷ write_file temp f.content perm ∷ before)
    pub history : r.1 ≡ rename temp path ∷ prepared temp perm before
    pub result :
        ((r.0 ≡ ok path) × (os.act (prepared temp perm before) (rename temp path) ≡ none))
        ⊎ ((e : Error) × (r.0 ≡ err e)
            × (os.act (prepared temp perm before) (rename temp path) ≡ some e))

  -- It ended with an error before the file was to be named, or the file was named as above.
  abbrev pub Outcome : Result Text × History → Type 0
  Outcome (r, h') = ((e : Error) × (r ≡ err e) × Since IsNoRename start h') ⊎ Named (r, h')

  fails : (e : Error) (h : History) → Since IsNoRename start h → Outcome (err e, h)
  fails e h since = inl (e, refl, since)

  module _ (temp : Text) (perm : ℕ) (h : History) (since : Since IsNoRename start h)
      (mode : permissions f.raw_file_permissions ≡ ok perm) where
    abbrev renamed : Io Text
    renamed = act (rename temp path) >> pure path

    abbrev owned : Io Text
    owned =
        when (if is_empty f.owner then false else true)
          (act (run (text "chown" ∷ f.owner ∷ temp ∷ []) []))
        >> renamed

    abbrev chown : Call
    chown = run (text "chown" ∷ f.owner ∷ temp ∷ []) []

    -- What was called until the owner is given
    abbrev ready : History
    ready = chmod temp perm ∷ close temp ∷ write_file temp f.content perm ∷ h

    renamed-Outcome :
        os.act h (write_file temp f.content perm) ≡ none
        → os.act (close temp ∷ write_file temp f.content perm ∷ h) (chmod temp perm) ≡ none
        → Given temp ready
        → Outcome (renamed os (prepared temp perm h))
    unfolding act pure ◌>>=◌
    renamed-Outcome written set given =
        inr (elim (Option-cases (os.act (prepared temp perm h) (rename temp path))) [
          | inl e ↦ record {
            temp = temp;
            perm = perm;
            before = h;
            quiet = since;
            mode = mode;
            written = written;
            set = set;
            given = given;
            history = rw e refl;
            result = inl (rw e refl, e);
          }
          | inr (error, e) ↦ record {
            temp = temp;
            perm = perm;
            before = h;
            quiet = since;
            mode = mode;
            written = written;
            set = set;
            given = given;
            history = rw e refl;
            result = inr (error, rw e refl, e);
          }
        ])

    owned_without : is_empty f.owner ≡ true → owned os ready ≡ renamed os (prepared temp perm h)
    unfolding when pure ◌>>=◌
    owned_without e = rw e refl

    owned_with :
        is_empty f.owner ≡ false
        → os.act ready chown ≡ none
        → owned os ready ≡ renamed os (prepared temp perm h)
    unfolding when act ◌>>=◌
    owned_with e e' = simp (e, e')

    owned_refused :
        (error : Error)
        → is_empty f.owner ≡ false
        → os.act ready chown ≡ some error
        → owned os ready ≡ (err error, chown ∷ ready)
    unfolding when act ◌>>=◌
    owned_refused error e e' = simp (e, e')

    owned-Outcome :
        os.act h (write_file temp f.content perm) ≡ none
        → os.act (close temp ∷ write_file temp f.content perm ∷ h) (chmod temp perm) ≡ none
        → Since IsNoRename start ready
        → Outcome (owned os ready)
    owned-Outcome written set since' = elim (Bool-cases (is_empty f.owner)) [
      | inl e ↦ rw (owned_without e) (renamed-Outcome written set (inl e))
      | inr e ↦ elim (Option-cases (os.act ready chown)) [
        | inl given ↦ rw (owned_with e given) (renamed-Outcome written set (inr given))
        | inr (error, refused) ↦ rw (owned_refused error e refused) (
            fails error (chown ∷ ready)
              (Since-trans IsNoRename start ready _ since' (Since-call IsNoRename chown ready tt)))
      ]
    ]

    written-Outcome : Outcome (
        (act (write_file temp f.content perm)
            >> (act (close temp) >> (act (chmod temp perm) >> owned)))
          os h)
    written-Outcome =
        act_step IsNoRename os start Outcome fails (write_file temp f.content perm)
          (act (close temp) >> (act (chmod temp perm) >> owned)) h tt since
          λ written since₁.
            act_step IsNoRename os start Outcome fails (close temp) (act (chmod temp perm) >> owned)
              (write_file temp f.content perm ∷ h) tt since₁
              λ closed since₂.
                act_step IsNoRename os start Outcome fails (chmod temp perm) owned
                  (close temp ∷ write_file temp f.content perm ∷ h) tt since₂
                  λ set since₃. owned-Outcome written set since₃

-- `WriteFile` ends with an error before the file is to be named, or it gives the name to a file
-- that has its content, its mode and its owner.
pub write_decoded-Outcome :
    (f : File) (root : Text) (os : Os) (h : History)
    → Outcome f (join_path (root ∷ f.path ∷ [])) os h (write_decoded f root os h)
unfolding write_decoded
write_decoded-Outcome f root os h =
    adds_step IsNoRename os h (Outcome f path os h) (fails f path os h)
      (ensure_directory_exists (dir_name path)) _ h (ensure_directory_exists-Adds (dir_name path))
      (Since-refl IsNoRename h)
      λ made h₁ e₁ since₁.
        lift_step IsNoRename os h (Outcome f path os h) (fails f path os h)
          (permissions f.raw_file_permissions) _ h₁ since₁
          λ perm mode.
            ask_text_step IsNoRename os h (Outcome f path os h) (fails f path os h)
              (temp_file (dir_name path) (text "wfs-temp")) _ h₁ tt since₁
              λ temp e since₂. written-Outcome f path os h temp perm _ since₂ mode
  where
    path : Text
    path = join_path (root ∷ f.path ∷ [])
