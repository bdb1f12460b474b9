-- ===== src/Enterchroot/Start/Detached.antt =====
-- pkg/enterchroot/enter.go: what becomes of the loop device that `Mount` attaches.
use k3os.Base.{
  ◌≡◌, refl, ◌⊎◌, inl, inr, ℕ, ◌==◌, Bool-cases, Option-cases, false, none, List, [], ◌∷◌,
}
use k3os.Base.Text.{Text, text}
use k3os.Os.Call.{attach, detach, getpid, setenv, exec, run, ok, FileInfo, Os, History}
use k3os.Os.Io.{pure, lift, attempt, act, act_, ask_text, ask_number, when, ◌>>=◌}
use k3os.Enterchroot.Image.{FileRead}
use k3os.Enterchroot.Start.{
  Elapsed, asleep, info_read, finished, in_background, become_enter_root, enter_args,
  start_enter_root, start_on, start_at,
}

in_background-ok :
    (dev : Text) (elapsed : Elapsed) (os : Os) (h : History)
    → (in_background dev elapsed os h).0 ≡ ok tt
unfolding in_background attempt pure ◌>>=◌
in_background-ok dev asleep os h = refl
in_background-ok dev info_read os h = refl
in_background-ok dev finished os h = refl

module _ (program self : Text) (reads : List FileRead) (elapsed : Elapsed) (os : Os) where
  -- The last call detaches the device.
  abbrev pub Detached : Text → History → Type 0
  Detached dev h' = (h : History) × (h' ≡ detach dev ∷ h)

  -- The last call made another program of the process.
  abbrev pub Replaced : List Text → History → Type 0
  Replaced args h' =
      (h : History) × (h' ≡ exec (program ∷ enter_args program self reads elapsed args) ∷ h)
      × (os.act h (exec (program ∷ enter_args program self reads elapsed args)) ≡ none)

  start_on-Detached :
      (dev : Text) (args : List Text) (h : History)
      → Detached dev (start_on program self reads elapsed dev args os h).1
        ⊎ Replaced args (start_on program self reads elapsed dev args os h).1
  unfolding start_on start_enter_root become_enter_root attempt act act_ ask_number when lift pure
      ◌>>=◌
  start_on-Detached dev args h =
      let h₁ = setenv (text "ENTER_DEVICE") dev ∷ h in
      let words = program ∷ enter_args program self reads elapsed args in
      elim (Bool-cases (os.number_of h₁ getpid == 1)) [
        | inl first ↦ elim (Option-cases (os.act (getpid ∷ h₁) (exec words))) [
          | inl e ↦ inr (getpid ∷ h₁, rw (first, e) refl, e)
          | inr (error, e) ↦ inl (exec words ∷ getpid ∷ h₁, rw (first, e) refl)
        ]
        | inr other ↦ elim (Option-cases (os.act (getpid ∷ h₁) (run words []))) [
          | inl e ↦ inl (
            (in_background dev elapsed os (run words [] ∷ getpid ∷ h₁)).1,
            rw (other, e, in_background-ok) refl,
          )
          | inr (error, e) ↦ inl (
            (in_background dev elapsed os (run words [] ∷ getpid ∷ h₁)).1,
            rw (other, e, in_background-ok) refl,
          )
        ]
      ]

  -- A loop device that was attached for an image is detached by the last call, whatever else fails,
  -- unless the last call replaced the process by `enter-root`, which needs the device; this for each
  -- number of calls that the goroutine makes while the started process runs.
  pub start_at-Detached :
      (root dev : Text) (offset : ℕ) (info : FileInfo) (args : List Text) (h : History)
      → info.is_dir ≡ false
      → os.text_of h (attach root offset) ≡ ok dev
      → Detached dev (start_at program self reads elapsed (root, offset) info args os h).1
        ⊎ Replaced args (start_at program self reads elapsed (root, offset) info args os h).1
  unfolding start_at attempt ask_text lift ◌>>=◌
  start_at-Detached root dev offset info args h file attached =
      rw (file, attached) (start_on-Detached dev args (attach root offset ∷ h))
