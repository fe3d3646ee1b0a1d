-- ===== src/Process/Reloads.antt =====
-- Sequences of changes and of ticks of the cron thread.
use bialet.LiveReload.{livereload_notify}
use bialet.World.{World}
use bialet.Process.{
  last_dot, is_script, is_migration, cron_run, is_cron, and_then, dmon_callback, Step, reload,
  Process, trigger_reload_files, wait_for_reload,
}
use bialet.Prelude.{
  ◌<◌, ◌∙◌, ◌++◌, true, ◌+◌, ◌-◌, arith, ltb, Bool-cases, Bool, ◌≤◌, Bytes, ◌≡◌, List, ℕ, Option,
  none, some, false, [], ◌∷◌, refl, inl, inr,
}

-- A change with the files as they are then, the two readings of the clock, and the path; or a tick.
pub data Event : Type 0 where
  changed : World → ℕ → ℕ → Option Bytes → Event
  cron_tick : Event

unfoldable pub event : Event → Process → Step
event (changed w noted now filepath) p = dmon_callback w noted now filepath p
event cron_tick p = (p, cron_run p)

-- The process after the events, and the effects in their order.
unfoldable pub history : List Event → Process → Step
history [] p = (p, [])
history (e ∷ es) p = let (q, effects) = event e p in and_then effects (history es q)

abbrev pub path_of : Event → Option Bytes
path_of (changed w noted now filepath) = filepath
path_of cron_tick = none

abbrev pub Until : ℕ → Event → Type 0
Until t (changed w noted now filepath) = now ≤ t
Until t cron_tick = Unit

abbrev pub is_cron_path : Option Bytes → Bool
is_cron_path none = false
is_cron_path (some path) = is_cron path

abbrev pub cron_of : Process → Option Bytes × Bool
cron_of p = (p.cron_code, p.cron_installed)

-- What a step may change.
pub record Kept (t : ℕ) (filepath : Option Bytes) (p q : Process) : Type 0 where
  pub root : q.root_dir ≡ p.root_dir
  pub recent : p.last_reload ≤ t → q.last_reload ≤ t
  pub cron : is_cron_path filepath ≡ false → cron_of q ≡ cron_of p

-- A change of a script behind the wait.
dmon_callback-reloads :
    (w : World) (noted now : ℕ) (path : Bytes) (p : Process)
    → is_script (last_dot path) ≡ true
    → p.last_reload + 3 < now
    → dmon_callback w noted now (some path) p
      ≡ reload w (some path) (record p { live = livereload_notify noted p.live; last_reload = now })
unfolding dmon_callback trigger_reload_files
dmon_callback-reloads w noted now path p s late =
    let passed : ltb wait_for_reload (now - p.last_reload) ≡ true = ground arith in
    rw (s, passed) refl

dmon_callback-waits :
    (w : World) (noted now : ℕ) (path : Bytes) (p : Process)
    → now ≤ p.last_reload + 3
    → let (q, effects) = dmon_callback w noted now (some path) p in
      (effects ++ [] ≡ []) × (cron_of q ≡ cron_of p)
unfolding dmon_callback trigger_reload_files
dmon_callback-waits w noted now path p soon =
    let waits : ltb wait_for_reload (now - p.last_reload) ≡ false = ground arith in
    elim (Bool-cases (is_script (last_dot path))) [
      | inl e ↦ rw (e, waits) (refl, refl)
      | inr e ↦ rw e (refl, refl)
    ]

-- Two changes of files, the first of any other script more than three seconds after the last
-- reload, the second up to three seconds behind it: nothing is run or installed for either, even
-- where the second is that of the migration or of the cron script.
pub history-drops :
    (w v : World) (noted now noted' now' : ℕ) (other second : Bytes) (p : Process)
    → is_script (last_dot other) ≡ true
    → is_migration other ≡ false
    → is_cron other ≡ false
    → p.last_reload + 3 < now
    → now' ≤ now + 3
    → let es = changed w noted now (some other) ∷ (changed v noted' now' (some second) ∷ []) in
      ((history es p).1 ≡ []) × (cron_of (history es p).0 ≡ cron_of p)
unfolding history event reload
history-drops w v noted now noted' now' other second p s m c late soon =
    let q = record p { live = livereload_notify noted p.live; last_reload = now } in
    let first : dmon_callback w noted now (some other) p ≡ (q, []) =
      dmon_callback-reloads w noted now other p s late ∙ rw (c, m) refl in
    rw first (dmon_callback-waits v noted' now' second q soon)
