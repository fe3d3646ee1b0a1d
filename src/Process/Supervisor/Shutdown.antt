-- ===== src/Process/Supervisor/Shutdown.antt =====
-- What a shutdown does to the workers.
use mathlib.Core.Path.{subst}
use bialet.Process.Supervisor.{
  Step, next_phase, Reach, forward, Status, Supervisor, Phase, Child, sigint_handler, clean, failed,
  forking, forked, waiting, ended, reaped, absent, serving, gone, forks, cannot_fork, assigns,
  signalled, interrupted, waits, settles, stops, fails, started, next,
}
use bialet.Prelude.{
  some_inj, sym, ◌<◌, not, arith, ap, ◌≡◌, ◌∙◌, Bool, ℕ, Option, none, some, true, false, refl,
}

abbrev pub is_serving : Child → Bool
is_serving (serving pid told) = true
is_serving _ = false

-- It serves and was not told to stop.
abbrev pub is_unaware : Child → Bool
is_unaware (serving pid told) = not told
is_unaware _ = false

abbrev number : Child → Option ℕ
number absent = none
number (serving pid told) = some pid
number (gone pid status) = some pid

forward-is_serving : (n : ℕ) (c : Child) → is_serving (forward n c) ≡ is_serving c
forward-is_serving n absent = ground arith
forward-is_serving n (serving pid told) = ground arith
forward-is_serving n (gone pid status) = ground arith

forward-number : (n : ℕ) (c : Child) → number (forward n c) ≡ number c
forward-number n absent = ground arith
forward-number n (serving pid told) = ground arith
forward-number n (gone pid status) = ground arith

forward-is_unaware : (n : ℕ) (c : Child) → is_unaware c ≡ false → is_unaware (forward n c) ≡ false
forward-is_unaware n absent h = ground arith
forward-is_unaware n (serving pid true) h = ground arith
forward-is_unaware n (serving pid false) h = absurd cc
forward-is_unaware n (gone pid status) h = ground arith

forward-told : (n : ℕ) (c : Child) → number c ≡ some n → 0 < n → is_unaware (forward n c) ≡ false
forward-told n absent h p = ground arith
forward-told n (serving pid true) h p = ground arith
forward-told n (serving pid false) h p = let same : pid ≡ n = some_inj h in ground arith
forward-told n (gone pid status) h p = ground arith

-- What holds at each place of the loop.
abbrev At : Phase → Supervisor → Type 0
At forking s = (is_serving s.child ≡ false) × (s.http_child_pid ≡ 0)
At forked s = (number s.child ≡ some s.pid) × (s.http_child_pid ≡ 0) × (0 < s.pid)
At waiting s = (number s.child ≡ some s.pid) × (s.http_child_pid ≡ s.pid) × (0 < s.pid)
At (reaped none) s = is_unaware s.child ≡ false
At (reaped (some status)) s = is_serving s.child ≡ false
At ended s = is_unaware s.child ≡ false

handler-At : (p : Phase) (s : Supervisor) → At p s → At p (sigint_handler s)
unfolding sigint_handler
handler-At forking s (h, z) = (forward-is_serving s.http_child_pid s.child ∙ h, z)
handler-At forked s (h, z, p) = (forward-number s.http_child_pid s.child ∙ h, z, p)
handler-At waiting s (h, z, p) = (forward-number s.http_child_pid s.child ∙ h, z, p)
handler-At (reaped none) s h = forward-is_unaware s.http_child_pid s.child h
handler-At (reaped (some status)) s h = forward-is_serving s.http_child_pid s.child ∙ h
handler-At ended s h = forward-is_unaware s.http_child_pid s.child h

gone-At :
    (p : Phase) (s : Supervisor) (pid : ℕ) (told : Bool) (status : Status)
    → s.child ≡ serving pid told
    → At p s
    → At p (record s { child = gone pid status })
gone-At forking s pid told status e (h, z) = (refl, z)
gone-At forked s pid told status e (h, z, p) = (ap number (sym e) ∙ h, z, p)
gone-At waiting s pid told status e (h, z, p) = (ap number (sym e) ∙ h, z, p)
gone-At (reaped none) s pid told status e h = refl
gone-At (reaped (some st)) s pid told status e h = refl
gone-At ended s pid told status e h = refl

heard_in_wait : (s : Supervisor) → At waiting s → is_unaware (sigint_handler s).child ≡ false
unfolding sigint_handler
heard_in_wait s (h, z, p) = rw z (forward-told s.pid s.child h p)

idle-aware : (c : Child) → is_serving c ≡ false → is_unaware c ≡ false
idle-aware absent h = refl
idle-aware (serving pid told) h = absurd cc
idle-aware (gone pid status) h = refl

settled-At :
    (r : Option Status) (b : Bool) (s : Supervisor)
    → At (reaped r) s
    → At (next_phase r b) (record s { phase = next_phase r b; http_child_pid = 0 })
settled-At none b s h = h
settled-At (some clean) b s h = idle-aware s.child h
settled-At (some failed) true s h = (h, refl)
settled-At (some failed) false s h = idle-aware s.child h

Step-At : {s t : Supervisor} → At s.phase s → Step s t → At t.phase t
unfolding sigint_handler
Step-At {s} h (forks pid e p) = (refl, (subst (λ p. At p s) e h).1, p)
Step-At {s} h (cannot_fork e) = idle-aware s.child (subst (λ p. At p s) e h).0
Step-At {s} h (assigns e) = let (n, z, p) = subst (λ p. At p s) e h in (n, refl, p)
Step-At {s} h signalled = handler-At s.phase s h
Step-At {s} h (interrupted e) = heard_in_wait s (subst (λ p. At p s) e h)
Step-At {s} h (waits status e g) = ap is_serving g
Step-At {s} h (settles r e) = settled-At r s.keep_running s (subst (λ p. At p s) e h)
Step-At {s} h (stops pid e) = gone-At s.phase s pid true clean e h
Step-At {s} h (fails pid told e) = gone-At s.phase s pid told failed e h

Reach-At : {s : Supervisor} → Reach s → At s.phase s
Reach-At started = (refl, refl)
Reach-At (next r st) = Step-At (Reach-At r) st

-- A reachable state of the loop.
pub record Watched (s : Supervisor) : Type 0 where
  pub alone : s.phase ≡ forking → is_serving s.child ≡ false
  pub heard : s.phase ≡ waiting → is_unaware (sigint_handler s).child ≡ false
  pub left : s.phase ≡ ended → is_unaware s.child ≡ false

-- Whatever signals arrive and however workers end: no worker serves when the supervisor forks one,
-- a signal that arrives while it waits tells the worker to stop, and when it leaves the loop no
-- worker serves that was not told to stop.
pub Reach-Watched : {s : Supervisor} → Reach s → Watched s
Reach-Watched {s} r = record {
  alone = λ e. (subst (λ p. At p s) e (Reach-At r)).0;
  heard = λ e. heard_in_wait s (subst (λ p. At p s) e (Reach-At r));
  left = λ e. subst (λ p. At p s) e (Reach-At r);
}

-- The supervisor waits for a worker that serves, after a signal that the worker was not told of.
abbrev pub lost : ℕ → Supervisor
lost pid = record {
  keep_running = false;
  http_child_pid = pid;
  pid = pid;
  phase = waiting;
  child = serving pid false;
}

abbrev pub is_signal : {s t : Supervisor} → Step s t → Bool
is_signal signalled = true
is_signal (interrupted e) = true
is_signal _ = false

serving-number : {a b : ℕ} {t u : Bool} → serving a t ≡ serving b u → b ≡ a
serving-number e = cc

lost-fails :
    (pid : ℕ) (t : Supervisor) (st : Step (lost pid) t)
    → is_signal st ≡ false
    → t ≡ record (lost pid) { child = gone pid failed }
lost-fails pid t (forks n e p) h = absurd cc
lost-fails pid t (cannot_fork e) h = absurd cc
lost-fails pid t (assigns e) h = absurd cc
lost-fails pid t signalled h = absurd cc
lost-fails pid t (interrupted e) h = absurd cc
lost-fails pid t (waits status e g) h = absurd cc
lost-fails pid t (settles r e) h = absurd cc
lost-fails pid t (stops n e) h = absurd cc
lost-fails pid t (fails n told e) h =
    ap (λ m. record (lost pid) { child = gone m failed }) (serving-number e)

-- A signal that arrives between `fork` and the assignment of the number of the worker is lost: the
-- worker serves on and the supervisor waits for it, and without another signal nothing happens any
-- more unless the worker fails.
pub shutdown_lost :
    (pid : ℕ)
    → 0 < pid
    → Reach (lost pid)
      × ((t : Supervisor) (st : Step (lost pid) t)
          → is_signal st ≡ false
          → t ≡ record (lost pid) { child = gone pid failed })
unfolding sigint_handler
shutdown_lost pid p =
    let forked_worker = next started (forks pid refl p) in
    (next (next forked_worker signalled) (assigns refl), lost-fails pid)
