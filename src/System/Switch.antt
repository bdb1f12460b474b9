-- ===== src/System/Switch.antt =====
-- pkg/system/component.go: the calls of `CopyComponent` that change the `current` link.
use k3os.Base.{
  ◌≡◌, ◌≢◌, refl, ℕ, ◌+◌, Bool, true, false, ◌||◌, Option, none, some, [], ◌∷◌, inl, inr,
  Bool-cases, arith, if◌then◌else◌,
}
use k3os.Base.Text.{Text, ◌=ᵗ◌, =ᵗ-ne, =ᵗ-refl}
use k3os.Base.FilePath.{dir_part, file_part}
use k3os.Os.Call.{
  Call, Error, Result, ok, err, FileInfo, History, Os, stat, temp_dir, symlink, remove, remove_all,
  rename, copy, write_file, mkdir, mkdir_all, create, write_open, open_write, copy_open, mkfifo,
  mknod,
}
use k3os.Os.Io.{Io, defer, act, act_, ask_text, ask_info, attempt, ◌>>=◌, continue}
use k3os.System.Component.{Paths, old_path, place_version, move_aside, install_version}

-- Whether the call would change what is found at `path`.
abbrev pub changes : Text → Call → Bool
changes path (rename a b) = a =ᵗ path || b =ᵗ path
changes path (symlink a b) = b =ᵗ path
changes path (copy a b) = b =ᵗ path
changes path (remove a) = a =ᵗ path
changes path (remove_all a) = a =ᵗ path
changes path (write_file a d m) = a =ᵗ path
changes path (create a) = a =ᵗ path
changes path (write_open a d) = a =ᵗ path
changes path (open_write a m) = a =ᵗ path
changes path (copy_open a b) = b =ᵗ path
changes path (mkfifo a m) = a =ᵗ path
changes path (mknod a m d) = a =ᵗ path
changes path (mkdir a m) = a =ᵗ path
changes path (mkdir_all a m) = a =ᵗ path
changes path _ = false

accepted : Option Error → ℕ
accepted none = 1
accepted (some e) = 0

-- How many calls that the system accepted change `path`.
unfoldable pub changed : Os → Text → History → ℕ
unfolding accepted
changed os path [] = 0
changed os path (c ∷ h) = (if changes path c then accepted (os.act h c) else 0) + changed os path h

unfoldable pub gain : Result Bool → ℕ
gain (ok true) = 1
gain (ok false) = 0
gain (err e) = 0

module _ (p : Paths) (info : FileInfo) (os : Os) where
  place_version-changed :
      (temp : Text) (h : History)
      → (p.dst_path =ᵗ p.curr_path) ≡ false
      → (p.prev_path =ᵗ p.curr_path) ≡ false
      → (temp =ᵗ p.curr_path) ≡ false
      → (p.curr_path =ᵗ p.curr_path) ≡ true
      → changed os p.curr_path (place_version p info temp os h).1
        ≡ gain (place_version p info temp os h).0 + changed os p.curr_path h
  unfolding place_version changed gain
  place_version-changed temp h a b c d = ground arith

-- The program makes as many accepted changes of `path` as its result says.
pub record Counts (os : Os) (path : Text) (m : Io Bool) : Type 0 where
  pub at : (h : History) → changed os path (m os h).1 ≡ gain (m os h).0 + changed os path h

module _ (os : Os) (path : Text) where
  defer-Counts :
      (c : Call) (m : Io Bool)
      → changes path c ≡ false
      → Counts os path m
      → Counts os path (defer (act_ c) m)
  unfolding defer act_ changed
  defer-Counts c m quiet k = record { at = λ h. ground (arith, k.at h) }

  act-Counts :
      (c : Call) (m : Io Bool)
      → changes path c ≡ false
      → Counts os path m
      → Counts os path (act c >>= λ _. m)
  unfolding ◌>>=◌ act changed gain
  act-Counts c m quiet k = record { at = λ h. ground (arith, k.at (c ∷ h)) }

  act_-Counts :
      (c : Call) (m : Io Bool)
      → changes path c ≡ false
      → Counts os path m
      → Counts os path (act_ c >>= λ _. m)
  unfolding ◌>>=◌ act_ changed
  act_-Counts c m quiet k = record { at = λ h. ground (arith, k.at (c ∷ h)) }

  continue-Counts :
      (r : Result Text) (f : Text → Io Bool) (c : Call) (h : History)
      → changes path c ≡ false
      → ((t : Text) → r ≡ ok t → Counts os path (f t))
      → changed os path (continue r f os (c ∷ h)).1
        ≡ gain (continue r f os (c ∷ h)).0 + changed os path h
  unfolding changed gain
  continue-Counts (ok t) f c h quiet k = ground (arith, (k t refl).at (c ∷ h))
  continue-Counts (err e) f c h quiet k = ground arith

  ask_text-Counts :
      (c : Call) (f : Text → Io Bool)
      → changes path c ≡ false
      → ((h : History) (t : Text) → os.text_of h c ≡ ok t → Counts os path (f t))
      → Counts os path (ask_text c >>= f)
  unfolding ◌>>=◌ ask_text
  ask_text-Counts c f quiet k = record {
    at = λ h. continue-Counts (os.text_of h c) f c h quiet (k h);
  }

  stat-Counts :
      (file : Text) (f : Result FileInfo → Io Bool)
      → ((r : Result FileInfo) → Counts os path (f r))
      → Counts os path (attempt (ask_info (stat file)) >>= f)
  unfolding ◌>>=◌ ask_info attempt changed
  stat-Counts file f k = record {
    at = λ h. omega (arith, (k (os.info_of h (stat file))).at (stat file ∷ h));
  }

-- `TempDir` gives a name that nothing has yet: not that of the `current` link.
abbrev pub IsFreshTemp : Os → Text → Type 0
IsFreshTemp os path =
    (h : History) (dir pattern name : Text)
    → os.text_of h (temp_dir dir pattern) ≡ ok name
    → name ≢ path

-- The paths are those of different files.
pub record AreApart (p : Paths) : Type 0 where
  pub dst_curr : p.dst_path ≢ p.curr_path
  pub old_curr : old_path p.dst_path ≢ p.curr_path
  pub prev_curr : p.prev_path ≢ p.curr_path
  pub temp_curr : p.curr_temp ≢ p.curr_path

module _ (p : Paths) (info : FileInfo) (os : Os) (apart : AreApart p) where
  place_version-Counts :
      (temp : Text) → temp ≢ p.curr_path → Counts os p.curr_path (place_version p info temp)
  place_version-Counts temp ne = record {
    at = λ h.
        place_version-changed p info os temp h (=ᵗ-ne _ _ apart.dst_curr)
          (=ᵗ-ne _ _ apart.prev_curr) (=ᵗ-ne _ _ ne) (=ᵗ-refl p.curr_path);
  }

  move_aside-Counts :
      (r : Result FileInfo) (rest : Io Bool)
      → Counts os p.curr_path rest
      → Counts os p.curr_path (move_aside r p.dst_path rest)
  unfolding move_aside
  move_aside-Counts (err e) rest k = k
  move_aside-Counts (ok i) rest k = elim (Bool-cases i.is_dir) [
    | inl dir ↦
        rw dir (
          act-Counts os p.curr_path _ _ apart_both
            (defer-Counts os p.curr_path _ rest apart_back k))
    | inr file ↦ rw file (act_-Counts os p.curr_path _ rest (=ᵗ-ne _ _ apart.dst_curr) k)
  ]
    where
      apart_both : changes p.curr_path (rename p.dst_path (old_path p.dst_path)) ≡ false
      apart_both = rw (=ᵗ-ne _ _ apart.dst_curr) (=ᵗ-ne _ _ apart.old_curr)

      apart_back : changes p.curr_path (rename (old_path p.dst_path) p.dst_path) ≡ false
      apart_back = rw (=ᵗ-ne _ _ apart.old_curr) (=ᵗ-ne _ _ apart.dst_curr)

  pub install_version-Counts :
      IsFreshTemp os p.curr_path → Counts os p.curr_path (install_version p info)
  unfolding install_version
  install_version-Counts fresh = act-Counts os p.curr_path _ _ temp_quiet (
      defer-Counts os p.curr_path _ _ temp_quiet (
        ask_text-Counts os p.curr_path _ _ refl λ h temp named.
          defer-Counts os p.curr_path _ _ (temp_ne h temp named) (
            act-Counts os p.curr_path _ _ (temp_ne h temp named) (
              stat-Counts os p.curr_path p.dst_path _
                λ r. move_aside-Counts r _ (place_version-Counts temp (fresh h _ _ temp named))))))
    where
      temp_quiet : (p.curr_temp =ᵗ p.curr_path) ≡ false
      temp_quiet = =ᵗ-ne _ _ apart.temp_curr

      temp_ne :
          (h : History) (temp : Text)
          → os.text_of h (temp_dir (dir_part p.dst_path) (file_part p.dst_path)) ≡ ok temp
          → (temp =ᵗ p.curr_path) ≡ false
      temp_ne h temp named = =ᵗ-ne _ _ (fresh h _ _ temp named)
