-- ===== src/Enterchroot/Root/Switching.antt =====
-- pkg/enterchroot/enter.go: the calls that change the root, and the steps that make them.
use k3os.Base.{
  ◌≡◌, refl, subst, sym, Bool-cases, inl, inr, Option-cases, true, false, List, [], ◌∷◌,
  if◌then◌else◌,
}
use k3os.Base.Text.{Text, text, is_empty}
use k3os.Base.FilePath.{join_path}
use k3os.Os.Call.{
  Call, Error, Result, ok, err, Os, History, mount, chdir, pivot_root, chroot, exec, stat, unsetenv,
}
use k3os.Os.Io.{Io, act, act_, attempt, ask_info, for_each, ◌>>=◌, ◌>>◌}
use k3os.Os.Steps.{group}
use k3os.Os.Accepted.{Accepted, accepted, accepted_step, other_step}
use k3os.Enterchroot.Root.Growing.{root_rules}
use k3os.Enterchroot.Root.{wrapped, check_squashfs, squash_context, mount_usr, link_usr, symlinks}

-- The mount of /usr: the root itself, or the image on the loop device
abbrev pub usr_mount : Text → Text → Text → Call
usr_mount root device usr =
    if is_empty device
    then mount root usr (text "none") (text "bind")
    else mount device usr (text "squashfs") (text "ro")

-- What has to be accepted to run /usr/init, the latest first
abbrev pub switch_calls : Text → Text → Text → List Text → List Call
switch_calls base root device args =
    exec (text "/usr/init" ∷ args)
    ∷ chdir (text "/")
    ∷ chroot (text "/")
    ∷ mount [] (text ".") (text "none") (text "rprivate")
    ∷ pivot_root (text ".") (text ".base")
    ∷ chdir base
    ∷ usr_mount root device (join_path (base ∷ text "usr" ∷ []))
    ∷ []

usr_mount-bind :
    (root device usr : Text)
    → is_empty device ≡ true
    → usr_mount root device usr ≡ mount root usr (text "none") (text "bind")
usr_mount-bind root device usr e = rw e refl

usr_mount-squash :
    (root device usr : Text)
    → is_empty device ≡ false
    → usr_mount root device usr ≡ mount device usr (text "squashfs") (text "ro")
usr_mount-squash root device usr e = rw e refl

module _ (os : Os) (start : History) (base : Text) (args : List Text) where
  -- The program was replaced by /usr/init after all the calls that have to be accepted before, or it
  -- ended with an error.
  abbrev pub Switched : Result (Unit {0}) × History → Type 0
  Switched (ok u, h) =
      (root : Text) × (device : Text) × Accepted os start (switch_calls base root device args) h
  Switched (err e, h) = Unit

  pub fails : (e : Error) (h : History) → Switched (err e, h)
  fails e h = tt

  wrapped_step :
      (context : Text) (c : Call) (rest : Io (Unit {0})) (cs : List Call) (h : History)
      → Accepted os start cs h
      → (Accepted os start (c ∷ cs) (c ∷ h) → Switched (rest os (c ∷ h)))
      → Switched ((wrapped context (act c) >> rest) os h)
  unfolding wrapped act ◌>>=◌
  wrapped_step context c rest cs h k next = elim (Option-cases (os.act h c)) [
    | inl e ↦ rw e (next (accepted c cs h e k))
    | inr (error, e) ↦ rw e tt
  ]

  mount_usr_step :
      (root device usr : Text) (rest : Io (Unit {0})) (h : History)
      → Accepted os start [] h
      → ((h' : History)
          → Accepted os start (usr_mount root device usr ∷ []) h'
          → Switched (rest os h'))
      → Switched ((mount_usr root device usr >> rest) os h)
  unfolding mount_usr
  mount_usr_step root device usr rest h k next = elim (Bool-cases (is_empty device)) [
    | inl e ↦ rw e (
        wrapped_step _ (mount root usr (text "none") (text "bind")) rest [] h k λ k'.
          next (mount root usr (text "none") (text "bind") ∷ h) (
            subst (λ c. Accepted os start (c ∷ []) (mount root usr (text "none") (text "bind") ∷ h))
              (sym (usr_mount-bind root device usr e)) k'))
    | inr e ↦
        rw
          (
            e,
            group (attempt check_squashfs)
                (λ squash.
                  wrapped (squash_context squash)
                    (act (mount device usr (text "squashfs") (text "ro"))))
                (λ _. rest) os h,
          )
          (other_step os start Switched fails (attempt check_squashfs) _ [] h
            (search (root_rules, tt)) k
            λ squash h' k'.
              wrapped_step (squash_context squash) (mount device usr (text "squashfs") (text "ro"))
                rest [] h' k'
                λ k''. next (mount device usr (text "squashfs") (text "ro") ∷ h') (
                  subst
                    (λ c.
                      Accepted os start (c ∷ [])
                        (mount device usr (text "squashfs") (text "ro") ∷ h'))
                    (sym (usr_mount-squash root device usr e)) k''))
  ]

  last_step :
      (root device : Text) (h : History)
      → Accepted os start
          (chdir (text "/")
            ∷ chroot (text "/")
            ∷ mount [] (text ".") (text "none") (text "rprivate")
            ∷ pivot_root (text ".") (text ".base")
            ∷ chdir base
            ∷ usr_mount root device (join_path (base ∷ text "usr" ∷ []))
            ∷ [])
          h
      → Switched (act (exec (text "/usr/init" ∷ args)) os h)
  unfolding act
  last_step root device h k = elim (Option-cases (os.act h (exec (text "/usr/init" ∷ args)))) [
    | inl e ↦ rw e (root, device, accepted (exec (text "/usr/init" ∷ args)) _ h e k)
    | inr (error, e) ↦ rw e tt
  ]

  -- What follows the switch of the root
  abbrev enter_init : Io (Unit {0})
  enter_init =
      wrapped (text "making . private: ")
        (act (mount [] (text ".") (text "none") (text "rprivate")))
      >> (act (chroot (text "/"))
          >> (act (chdir (text "/"))
              >> (wrapped (text "failed to find /usr/init: ") (ask_info (stat (text "/usr/init")))
                  >> (act_ (unsetenv (text "ENTER_ROOT"))
                      >> (act_ (unsetenv (text "ENTER_DATA"))
                          >> (act_ (unsetenv (text "ENTER_DEVICE"))
                              >> act (exec (text "/usr/init" ∷ args))))))))

  init_step :
      (root device : Text) (h : History)
      → Accepted os start
          (pivot_root (text ".") (text ".base")
            ∷ chdir base
            ∷ usr_mount root device (join_path (base ∷ text "usr" ∷ []))
            ∷ [])
          h
      → Switched (enter_init os h)
  init_step root device h k =
      wrapped_step _ (mount [] (text ".") (text "none") (text "rprivate")) _ _ h k λ k₁.
        accepted_step os start Switched fails (chroot (text "/")) _ _ _ k₁ λ k₂.
          accepted_step os start Switched fails (chdir (text "/")) _ _ _ k₂ λ k₃.
            other_step os start Switched fails (wrapped _ (ask_info (stat (text "/usr/init")))) _ _
              _ (search (root_rules, tt)) k₃
              λ info h₄ k₄.
                other_step os start Switched fails (act_ (unsetenv (text "ENTER_ROOT"))) _ _ h₄
                  (search (root_rules, tt)) k₄
                  λ u₅ h₅ k₅.
                    other_step os start Switched fails (act_ (unsetenv (text "ENTER_DATA"))) _ _ h₅
                      (search (root_rules, tt)) k₅
                      λ u₆ h₆ k₆.
                        other_step os start Switched fails (act_ (unsetenv (text "ENTER_DEVICE"))) _
                          _ h₆ (search (root_rules, tt)) k₆ λ u₇ h₇ k₇. last_step root device h₇ k₇

  -- The part from the mount of /usr to the switch of the root
  pub pivot_step :
      (root device : Text) (h : History)
      → Accepted os start [] h
      → Switched (
          (mount_usr root device (join_path (base ∷ text "usr" ∷ []))
              >> (act (chdir base)
                  >> (for_each symlinks link_usr
                      >> (wrapped
                            (text "pivot_root failed: ")
                            (act (pivot_root (text ".") (text ".base")))
                          >> enter_init))))
            os h)
  pivot_step root device h k =
      mount_usr_step root device (join_path (base ∷ text "usr" ∷ [])) _ h k λ h₁ k₁.
        accepted_step os start Switched fails (chdir base) _ _ h₁ k₁ λ k₂.
          other_step os start Switched fails (for_each symlinks link_usr) _ _ _
            (search (root_rules, tt)) k₂
            λ u h₃ k₃.
              wrapped_step _ (pivot_root (text ".") (text ".base")) _ _ h₃ k₃
                λ k₄. init_step root device _ k₄
