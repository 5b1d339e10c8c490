-- ===== src/Repair/Keeps.antt =====
-- What `repair` of scripts/repair_provider_compatibility.py leaves in the config, whichever calls fail and
-- whatever other processes write to it.
use codex_subscription_route.Prelude.{
  ◌⊎◌, ◌≡◌, ◌≢◌, refl, Bool, true, false, Option, none, some, List, [], ◌∷◌, Bool-cases, inl, inr,
  All, if◌then◌else◌, Outcome, ok, err, Outcome-cases,
}
use codex_subscription_route.Text.{Bytes, bytes_eq}
use codex_subscription_route.Repair.{
  RepairError, Toml, os_error, changed, patched_config, Files, Call, World, after_others, perform,
  and_then, nothing, same_files, with_backup, with_temporary, replaced, replace_config, finish,
  remove_temporary, cleanup, back_up, repair_with, repair,
}

-- What other processes may write to the config.
abbrev pub MayWrite : (Bytes → Type 0) → Call → Type 0
MayWrite P call = (s : Bytes) → call.meanwhile ≡ some s → P s

abbrev Stable : (Bytes → Type 0) → (Files → Type 0) → Type 0
Stable P I = (s : Bytes) (f : Files) → P s → I f → I (after_others (some s) f)

-- What has to be shown of a call and what follows it.
module _ (P : Bytes → Type 0) (I : Files → Type 0) (stable : Stable P I) where
  others_lem :
      (o : Option Bytes) (f : Files) → ((s : Bytes) → o ≡ some s → P s) → I f → I (after_others o f)
  others_lem none f may i = i
  others_lem (some s) f may i = stable s f (may s refl) i

  perform_only :
      {A : Type 0} (result : Files → A) (act : Files → Files)
      (G : Outcome RepairError A × World → Type 0) (f : Files) (calls : List Call)
      → I f
      → All (MayWrite P) calls
      → ((g : Files) (later : List Call)
          → I g
          → All (MayWrite P) later
          → G (err os_error, record { files = g; calls = later }))
      → ((g : Files) (later : List Call)
          → I g
          → All (MayWrite P) later
          → G (ok (result g), record { files = act g; calls = later }))
      → G (perform result act (record { files = f; calls = calls }))
  unfolding perform
  perform_only result act G f [] i may on_err on_ok = on_ok f [] i tt
  perform_only result act G f (call ∷ calls) i may on_err on_ok =
      let j = others_lem call.meanwhile f may.0 i in
      elim (Bool-cases call.works) [
        | inl works ↦ rw (works) (on_ok (after_others call.meanwhile f) calls j may.1)
        | inr fails ↦ rw (fails) (on_err (after_others call.meanwhile f) calls j may.1)
      ]

-- The config was replaced: it was the original, which the backup holds, and it is the patched one.
pub record IsReplaced (P : Bytes → Type 0) (toml : Toml) (r : Outcome RepairError Bool × World)
    : Type 0 where
  pub original : Bytes
  pub kept : P original
  pub patched : patched_config toml original ≡ ok r.1.files.config
  pub backed_up : r.1.files.backup ≡ some original
  pub returned : r.0 ≡ ok true

-- The config was not replaced.
pub record IsUntouched (P : Bytes → Type 0) (r : Outcome RepairError Bool × World) : Type 0 where
  pub config : P r.1.files.config
  pub returned : r.0 ≢ ok true

module _ (P : Bytes → Type 0) (toml : Toml) where
  abbrev Leaves : Outcome RepairError Bool × World → Type 0
  Leaves r = IsUntouched P r ⊎ IsReplaced P toml r

  abbrev HasP : Files → Type 0
  HasP f = P f.config

  abbrev BackedUp : Bytes → Files → Type 0
  BackedUp original f = P f.config × (f.backup ≡ some original)

  finish-err :
      (removed : Outcome RepairError (Unit {0})) (e : RepairError)
      → finish removed (err e) ≢ ok true
  finish-err (ok u) e = λ h. cc h
  finish-err (err f) e = λ h. cc h

  removed_lem :
      (o : Option Bytes) (f : Files) (calls : List Call)
      → P f.config
      → All (MayWrite P) calls
      → P (remove_temporary o (record { files = f; calls = calls })).1.files.config
  removed_lem none f calls p may = p
  removed_lem (some s) f calls p may =
      perform_only P HasP (λ t g w i. w) nothing (with_temporary none) (λ r. P r.1.files.config) f
        calls p may (λ g later i may. i) (λ g later i may. i)

  -- A failure behind `try` leaves the config.
  cleanup-err :
      (e : RepairError) (f : Files) (calls : List Call)
      → P f.config
      → All (MayWrite P) calls
      → Leaves (cleanup (err e, record { files = f; calls = calls }))
  unfolding cleanup
  cleanup-err e f calls p may = inl (record {
    config = removed_lem f.temporary f calls p may;
    returned = finish-err (remove_temporary f.temporary (record { files = f; calls = calls })).0 e;
  })

  moved : (original : Bytes) → Stable P (BackedUp original)
  moved original s g p j = (p, j.1)

  replaced-Leaves :
      (original result : Bytes) (f : Files) (calls : List Call)
      → P original
      → patched_config toml original ≡ ok result
      → BackedUp original f
      → All (MayWrite P) calls
      → Leaves (cleanup (perform nothing (replaced result) (record { files = f; calls = calls })))
  unfolding cleanup
  replaced-Leaves original result f calls kept patched i may =
      perform_only P (BackedUp original) (moved original) nothing (replaced result)
        (λ r. Leaves (cleanup r)) f calls i may
        (λ g later j may. cleanup-err os_error g later j.0 may)
        (λ g later j may. inr (record {
          original = original;
          kept = kept;
          patched = patched;
          backed_up = j.1;
          returned = refl;
        }))

  compared-Leaves :
      (original result : Bytes) (f : Files) (calls : List Call)
      → P original
      → patched_config toml original ≡ ok result
      → BackedUp original f
      → All (MayWrite P) calls
      → Leaves (
          cleanup (
            if bytes_eq f.config original
            then perform nothing (replaced result) (record { files = f; calls = calls })
            else (err changed, record { files = f; calls = calls })))
  compared-Leaves original result f calls kept patched i may =
      elim (Bool-cases (bytes_eq f.config original)) [
        | inl same ↦ rw (same) (replaced-Leaves original result f calls kept patched i may)
        | inr other ↦ rw (other) (cleanup-err changed f calls i.0 may)
      ]

  replace_config-Leaves :
      (original result : Bytes) (f : Files) (calls : List Call)
      → P original
      → patched_config toml original ≡ ok result
      → BackedUp original f
      → All (MayWrite P) calls
      → Leaves (cleanup (replace_config original result (record { files = f; calls = calls })))
  unfolding replace_config
  replace_config-Leaves original result f calls kept patched i may =
      let compare = λ (now : Bytes) (w : World).
        if bytes_eq now original then perform nothing (replaced result) w else (err changed, w) in
      perform_only P (BackedUp original) (moved original) nothing (with_temporary (some result))
        (λ r.
          Leaves
            (cleanup (and_then r (λ u w. and_then (perform (λ h. h.config) same_files w) compare))))
        f calls i may (λ g later j may. cleanup-err os_error g later j.0 may)
        (λ g later j may.
          perform_only P (BackedUp original) (moved original) (λ h. h.config) same_files
            (λ r. Leaves (cleanup (and_then r compare))) (with_temporary (some result) g) later j
            may (λ h rest k may. cleanup-err os_error h rest k.0 may)
            (λ h rest k may. compared-Leaves original result h rest kept patched k may))

  untouched :
      (g : Files) (later : List Call)
      → P g.config
      → All (MayWrite P) later
      → Leaves (err os_error, record { files = g; calls = later })
  untouched g later p may = inl (record { config = p; returned = λ h. cc h })

  back_up-Leaves :
      (original result : Bytes) (f : Files) (calls : List Call)
      → P original
      → patched_config toml original ≡ ok result
      → P f.config
      → All (MayWrite P) calls
      → Leaves (
          and_then
            (back_up original (record { files = f; calls = calls }))
            (λ u w. cleanup (replace_config original result w)))
  unfolding back_up
  back_up-Leaves original result f calls kept patched p may =
      let still = λ (s : Bytes) (g : Files) (w : P s) (i : P g.config). w in
      let swap = λ (u : Unit {0}) (w : World). cleanup (replace_config original result w) in
      let make = λ (u : Unit {0}) (w : World). perform nothing (with_temporary (some [])) w in
      let write =
        λ (u : Unit {0}) (w : World). and_then (perform nothing (with_backup original) w) make in
      let protect = λ (u : Unit {0}) (w : World). and_then (perform nothing same_files w) write in
      perform_only P HasP still nothing (with_backup [])
        (λ r. Leaves (and_then (and_then r protect) swap)) f calls p may untouched
        (λ g later j may.
          perform_only P HasP still nothing same_files
            (λ r. Leaves (and_then (and_then r write) swap)) (with_backup [] g) later j may
            untouched
            (λ h rest k may.
              perform_only P HasP still nothing (with_backup original)
                (λ r. Leaves (and_then (and_then r make) swap)) h rest k may untouched
                (λ l more m may.
                  perform_only P (BackedUp original) (moved original) nothing
                    (with_temporary (some [])) (λ r. Leaves (and_then r swap))
                    (with_backup original l) more (m, refl) may
                    (λ x last n may. untouched x last n.0 may)
                    (λ x last n may.
                      replace_config-Leaves original result (with_temporary (some []) x) last kept
                        patched n may))))

  repair_with-Leaves :
      (original : Bytes) (f : Files) (calls : List Call)
      → P original
      → P f.config
      → All (MayWrite P) calls
      → Leaves (
          repair_with original (patched_config toml original) (record { files = f; calls = calls }))
  repair_with-Leaves original f calls kept p may =
      elim (Outcome-cases (patched_config toml original)) [
        | inr (e, failed) ↦ rw (failed) (inl (record { config = p; returned = λ h. cc h }))
        | inl (result, patched) ↦ rw (patched) (elim (Bool-cases (bytes_eq result original)) [
          | inl same ↦ rw (same) (inl (record { config = p; returned = λ h. cc h }))
          | inr different ↦
              rw (different) (back_up-Leaves original result f calls kept patched p may)
        ])
      ]

  -- Whichever calls fail, and whatever other processes write to the config before each of them: for every
  -- property that the config has at the start and that all that is written to it has, either the config has
  -- it in the end and `repair` does not return a backup, or the config is the patched one of an original
  -- that had it, which the backup holds, and `repair` returns the backup.
  pub repair-Leaves :
      (is_regular : Bool) (f : Files) (calls : List Call)
      → P f.config
      → All (MayWrite P) calls
      → IsUntouched P (repair toml is_regular (record { files = f; calls = calls }))
        ⊎ IsReplaced P toml (repair toml is_regular (record { files = f; calls = calls }))
  unfolding repair
  repair-Leaves false f calls p may = inl (record { config = p; returned = λ h. cc h })
  repair-Leaves true f calls p may =
      perform_only P HasP (λ s g w i. w) (λ g. g.config) same_files
        (λ r.
          Leaves (and_then r (λ original w. repair_with original (patched_config toml original) w)))
        f calls p may untouched (λ g later i may. repair_with-Leaves g.config g later i i may)
