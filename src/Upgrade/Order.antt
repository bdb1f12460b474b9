-- ===== src/Upgrade/Order.antt =====
-- pkg/cli/upgrade/upgrade.go: what comes before a sync or a reboot.
use k3os.Base.{◌≡◌, refl, ap, arith, inl, inr, ◌⊎◌, Bool, true, false, Bool-cases, List, [], ◌∷◌}
use k3os.Base.Text.{Text, text}
use k3os.Os.Call.{Call, Error, Result, ok, err, Os, History, flock, unflock, close}
use k3os.Os.Io.{Io, pure, attempt, act_, continue, ◌>>=◌, ◌>>◌}
use k3os.Os.Adds.{Adds, Since, Since-refl, Since-trans, adds_rules}
use k3os.Os.Steps.{act_step, adds_step}
use k3os.Os.Accepted.{Accepted, begun, Accepted-Since, Accepted-trans, IsAny}
use k3os.System.Component.{copy_component}
use k3os.System.Installed.{Installed}
use k3os.System.Installed.Component.{IsInstallation, copy_component-Installed}
use k3os.Upgrade.{
  Flags, Progress, note, upgrade_one, upgrade_all, finish, locked_part, open_lock, run_upgrade,
}
use k3os.Upgrade.Idle.{after_copies}
use k3os.Upgrade.Safety.{finish-Adds}
use k3os.Upgrade.Quiet.{IsQuiet, copy_component-IsQuiet, upgrade_all-IsQuiet, open_lock-IsQuiet}

module _ (f : Flags) (os : Os) where
  -- A version of a component was installed, all calls of its installation accepted.
  abbrev pub HasInstalled : History → History → Type 0
  HasInstalled start h =
      (key : Text) × (remount : Bool) × (calls : List Call) × IsInstallation f.source_dir
        f.destination_dir remount key calls
      × Accepted os start calls h

  -- What is kept by the copies
  Kept : History → Result Progress × History → Type 0
  Kept start (ok s, h) = Accepted os start [] h × ((s.copied ≡ true) → HasInstalled start h)
  Kept start (err e, h) = Unit

  upgrade_one-Kept :
      (start h : History) (wanted : Bool) (key : Text) (s : Progress)
      → Kept start (ok s, h)
      → Kept start (upgrade_one f wanted key s os h)
  unfolding upgrade_one Kept Installed attempt pure ◌>>=◌
  upgrade_one-Kept start h false key s k = k
  upgrade_one-Kept start h true key s (reached, old) =
      noted run (since_begun [] reached) (λ e. has_installed (old e))
        (copy_component-Installed f.source_dir f.destination_dir key s.remount os h)
    where
      run : Result Bool × History
      run = copy_component f.source_dir f.destination_dir s.remount key os h

      since_begun : (cs : List Call) → Accepted os start cs h → Accepted os start cs run.1
      since_begun cs k =
          Accepted-Since IsQuiet os start cs h run.1
            ((copy_component-IsQuiet f.source_dir f.destination_dir s.remount key).at os h) k

      has_installed : HasInstalled start h → HasInstalled start run.1
      has_installed (key', remount, calls, done, k) =
          (key', remount, calls, done, since_begun calls k)

      noted :
          (r : Result Bool × History)
          → Accepted os start [] r.1
          → ((s.copied ≡ true) → HasInstalled start r.1)
          → Installed os h (IsInstallation f.source_dir f.destination_dir s.remount key) r
          → Kept start (ok (note s r.0), r.1)
      noted (err e, h') k' old' new = (k', old')
      noted (ok false, h') k' old' new = (k', old')
      noted (ok true, h') k' old' (calls, done, new) =
          (k', λ e. (key, s.remount, calls, done, Accepted-trans os start h calls h' reached new))

  then_Kept :
      (start h : History) (m : Io Progress) (next : Progress → Io Progress)
      → Kept start (m os h)
      → ((s : Progress) (h' : History) → Kept start (ok s, h') → Kept start (next s os h'))
      → Kept start ((m >>= next) os h)
  unfolding Kept ◌>>=◌
  then_Kept start h m next k l = after (m os h) k
    where
      after : (r : Result Progress × History) → Kept start r → Kept start (continue r.0 next os r.1)
      after (ok s, h') k' = l s h' k'
      after (err e, h') k' = tt

  upgrade_all-Kept : (h : History) → Kept h (upgrade_all f os h)
  unfolding upgrade_all
  upgrade_all-Kept h =
      let start : Progress = record { copied = false; remount = f.do_remount } in
      let k3s = upgrade_one f f.upgrade_k3s (text "k3s") in
      let kernel = upgrade_one f f.upgrade_kernel (text "kernel") in
      then_Kept h h (upgrade_one f f.upgrade_k3os (text "k3os") start) (λ s. k3s s >>= kernel)
        (upgrade_one-Kept h h f.upgrade_k3os (text "k3os") start
          (unfold Kept in (begun, λ e. absurd (ground arith))))
        λ s₁ h₁ k₁.
          then_Kept h h₁ (k3s s₁) kernel (upgrade_one-Kept h h₁ f.upgrade_k3s (text "k3s") s₁ k₁)
            λ s₂ h₂ k₂. upgrade_one-Kept h h₂ f.upgrade_kernel (text "kernel") s₂ k₂

  -- The upgrade neither syncs nor runs a program; or it does so only after a component was installed.
  abbrev pub Ordered : History → History → Type 0
  Ordered start h' =
      Since IsQuiet start h'
      ⊎ ((mid : History) × Since IsQuiet start mid × HasInstalled start mid × Since IsAny mid h')

  module _ (start : History) where
    abbrev Goal : Result (Unit {0}) × History → Type 0
    Goal (r, h') = Ordered start h'

    fails : (e : Error) (h : History) → Since IsQuiet start h → Goal (err e, h)
    fails e h since = inl since

    abbrev release : Io (Unit {0})
    release = act_ (unflock f.lock_file) >> act_ (close f.lock_file)

    after_copies-Ordered :
        (s : Progress) (h h' : History)
        → Accepted os start [] h
        → Kept h (ok s, h')
        → Since IsQuiet start h'
        → Ordered start ((finish f s >> release) os h').1
    unfolding Kept
    after_copies-Ordered s h h' reached (reached', old) since = elim (Bool-cases s.copied) [
      | inl copied ↦
          let (key, remount, calls, done, k) = old copied in
          inr (
            h',
            since,
            (key, remount, calls, done, Accepted-trans os start h calls h' reached k),
            rest-Since.at os h',
          )
      | inr idle ↦ rw (after_copies f (ok s) s os h' refl idle) (
          inl (record {
            added = close f.lock_file ∷ unflock f.lock_file ∷ since.added;
            extends = ap (λ x. close f.lock_file ∷ unflock f.lock_file ∷ x) since.extends;
            each = (tt, (tt, since.each));
          }))
    ]
      where
        rest-Since : Adds IsAny (finish f s >> release)
        rest-Since = search (adds_rules, finish-Adds)

    locked_part-Ordered :
        (h : History) → Accepted os start [] h → Since IsQuiet start h → Goal (locked_part f os h)
    unfolding locked_part ◌>>=◌
    locked_part-Ordered h reached since =
        after (upgrade_all f os h) (upgrade_all-Kept h) (
          Since-trans IsQuiet start h (upgrade_all f os h).1 since
            ((upgrade_all-IsQuiet f).at os h))
      where
        after :
            (r : Result Progress × History)
            → Kept h r
            → Since IsQuiet start r.1
            → Goal (continue r.0 (λ s. finish f s >> release) os r.1)
        after (ok s, h') k since' = after_copies-Ordered s h h' reached k since'
        after (err e, h') k since' = inl since'

-- Up to some point an upgrade neither syncs nor runs or becomes another program, such as the reboot. It
-- ends there, or since its start it has installed a version of a component, all calls of the
-- installation accepted.
pub run_upgrade-Ordered :
    (f : Flags) (os : Os) (start : History) → Ordered f os start (run_upgrade f os start).1
unfolding run_upgrade
run_upgrade-Ordered f os start =
    adds_step IsQuiet os start (Goal f os start) (fails f os start) (open_lock f) _ start
      (open_lock-IsQuiet f) (Since-refl IsQuiet start)
      λ opened h e since.
        act_step IsQuiet os start (Goal f os start) (fails f os start) (flock f.lock_file)
          (locked_part f) h tt since
          λ granted since'.
            locked_part-Ordered f os start _
              (Accepted-Since IsQuiet os start [] start _ since' begun) since'
