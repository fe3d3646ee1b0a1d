-- ===== src/Tests/Processes.antt =====
-- Changes of files, polls and shutdowns.
use bialet.Run.{ok_response}
use bialet.LiveReload.{livereload_notify, LiveReload}
use bialet.LiveReload.Polls.{livereload_notify-poll, poll}
use bialet.World.{World}
use bialet.Process.Supervisor.Shutdown.{shutdown_lost, is_signal, Reach-Watched, lost, Watched}
use bialet.Process.Reloads.{history-drops, cron_of, history, Event, changed, cron_tick}
use bialet.Process.{is_cron, is_migration, is_script, migration_file, last_dot, Process}
use bialet.Process.Supervisor.{
  Step, Supervisor, sigint_handler, Reach, failed, gone, forks, assigns, signalled, started, next,
}
use bialet.Prelude.{
  ℕ, ◌↔◌, arith, ◌≡◌, ◌+◌, codes, str_eq, List, none, some, true, false, refl, [], ◌∷◌,
}

-- A world where every path is a file with the same text.
abbrev one_text : World
one_text = record {
  stat = λ p. none;
  lstat = λ p. none;
  realpath = λ p. some p;
  open_root = some 3;
  openat = λ fd name. some (fd + 1);
  read_all = λ fd. some (codes "code");
  bialet_run = λ path source hm. ok_response;
}

abbrev live_page : LiveReload
live_page = record { enabled = true; shared_version = some 100 }

abbrev settled_down : Process
settled_down = record {
  root_dir = codes "/srv";
  last_reload = 90;
  cron_installed = false;
  cron_code = none;
  live = live_page;
}

abbrev earlier : List Event
earlier =
    changed one_text 95 95 (some (codes "home.wren"))
    ∷ (cron_tick ∷ (changed one_text 96 96 (some (codes "style.css")) ∷ []))

abbrev later : List Event
later = cron_tick ∷ (changed one_text 101 101 (some (codes "_migration.wren")) ∷ [])

home_script : is_script (last_dot (codes "home.wren")) ≡ true
unfolding last_dot str_eq
home_script = refl

home_others : (is_migration (codes "home.wren") ≡ false) × (is_cron (codes "home.wren") ≡ false)
unfolding str_eq
home_others = (refl, refl)

history-drops_test :
    let es =
      changed one_text 95 95 (some (codes "home.wren"))
      ∷ (changed one_text 98 98 (some migration_file) ∷ []) in
    ((history es settled_down).1 ≡ []) × (cron_of (history es settled_down).0 ≡ (none, false))
history-drops_test =
    history-drops one_text one_text 95 95 98 98 (codes "home.wren") migration_file settled_down
      home_script home_others.0 home_others.1 (omega arith) (omega arith)

abbrev unheard : Reach (lost 7)
unfolding sigint_handler
unheard = next (next (next started (forks 7 refl (omega arith))) signalled) (assigns refl)

Reach-Watched_example : Watched (lost 7)
Reach-Watched_example = Reach-Watched unheard

shutdown_lost_example :
    Reach (lost 7)
    × ((t : Supervisor) (st : Step (lost 7) t)
        → is_signal st ≡ false
        → t ≡ record (lost 7) { child = gone 7 failed })
shutdown_lost_example = shutdown_lost 7 (omega arith)

abbrev moment : ℕ
moment = 101

livereload_notify-poll_example :
    (poll (livereload_notify moment live_page) ≡ poll live_page) ↔ (moment ≡ 100)
livereload_notify-poll_example =
    livereload_notify-poll live_page 100 moment refl refl (omega arith) (omega arith)
