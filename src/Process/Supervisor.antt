-- ===== src/Process/Supervisor.antt =====
-- src/main.c: the loop that forks the worker and waits for it, and the handler of the signals. The
-- signals reach the supervisor alone; `waitpid` has no error but EINTR, since the child is there.
pub mod Shutdown
use bialet.Prelude.{
  not, ◌<◌, ltb, ◌==◌, if◌then◌else◌, ◌||◌, ◌≡◌, ℕ, Option, Bool, true, false, none, some,
}

-- How a worker ended: `exit(0)`, or with another code or by a signal.
pub data Status : Type 0 where
  clean failed : Status

-- Where the supervisor is: in front of `fork`; behind it, in front of the assignment; behind that,
-- up to the return of `waitpid`; behind its return, `none` for EINTR; and out of the loop.
pub data Phase : Type 0 where
  forking forked waiting ended : Phase
  reaped : Option Status → Phase

-- The worker of the last round with its number: it serves, and whether its `keep_running` is 0; or
-- it ended.
pub data Child : Type 0 where
  absent : Child
  serving : ℕ → Bool → Child
  gone : ℕ → Status → Child

pub record Supervisor : Type 0 where
  pub keep_running : Bool
  pub http_child_pid : ℕ
  pub pid : ℕ
  pub phase : Phase
  pub child : Child

abbrev pub kill : ℕ → Child → Child
kill target (serving pid told) = serving pid (told || pid == target)
kill target absent = absent
kill target (gone pid status) = gone pid status

abbrev pub forward : ℕ → Child → Child
forward child c = if ltb 0 child then kill child c else c

unfoldable pub sigint_handler : Supervisor → Supervisor
sigint_handler s = record s { keep_running = false; child = forward s.http_child_pid s.child }

-- What follows `waitpid`.
abbrev pub next_phase : Option Status → Bool → Phase
next_phase none keep_running = ended
next_phase (some clean) keep_running = ended
next_phase (some failed) keep_running = if keep_running then forking else ended

-- A worker inherits `keep_running`; its loop ends when that is 0, and it can fail at any time.
pub data Step (s : Supervisor) : Supervisor → Type 0 where
  forks :
      (pid : ℕ)
      → s.phase ≡ forking
      → 0 < pid
      → Step s (record s { phase = forked; pid = pid; child = serving pid (not s.keep_running) })
  cannot_fork : s.phase ≡ forking → Step s (record s { phase = ended })
  assigns : s.phase ≡ forked → Step s (record s { phase = waiting; http_child_pid = s.pid })
  signalled : Step s (sigint_handler s)
  interrupted : s.phase ≡ waiting → Step s (record (sigint_handler s) { phase = reaped none })
  waits :
      (status : Status)
      → s.phase ≡ waiting
      → s.child ≡ gone s.pid status
      → Step s (record s { phase = reaped (some status) })
  settles :
      (r : Option Status)
      → s.phase ≡ reaped r
      → Step s (record s { phase = next_phase r s.keep_running; http_child_pid = 0 })
  stops : (pid : ℕ) → s.child ≡ serving pid true → Step s (record s { child = gone pid clean })
  fails :
      (pid : ℕ) (told : Bool)
      → s.child ≡ serving pid told
      → Step s (record s { child = gone pid failed })

abbrev pub start : Supervisor
start = record { keep_running = true; http_child_pid = 0; pid = 0; phase = forking; child = absent }

pub data Reach : Supervisor → Type 0 where
  started : Reach start
  next : {s t : Supervisor} → Reach s → Step s t → Reach t
