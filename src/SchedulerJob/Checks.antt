-- ===== src/SchedulerJob/Checks.antt =====
-- `checkState`: what it reads, and when it lets a tick pass.
use blockchain_task_server.Common.{
  String, true, false, Option, none, some, ◌≡◌, ◌≢◌, ◌⊎◌, inl, inr, refl, arith, ◌∙◌, sym,
}
use blockchain_task_server.Effects.{Result, ok, err, and_then}
use blockchain_task_server.Entities.{Scheduler}
use blockchain_task_server.Platform.{Platform, IsLawful, SameData, Found, Deleted}
use blockchain_task_server.Exceptions.{exception, error}
use blockchain_task_server.SchedulerLogger.{set_message, set_logger_level, warn}
use blockchain_task_server.SchedulerJob.{
  World, Context, get_scheduler, reset_timer, same_cron, adopt_cron, check_row, check_state,
}

module _ {W S T : Type 0} (p : Platform W S T) (lawful : IsLawful p) (id : String) where
  delete-SameData : (s : S) → SameData p s (p.delete_cron_job id s).1
  delete-SameData s = go (p.delete_cron_job id s) (lawful.delete_law id s)
    where
      go : (x : Result (Unit {0}) × S) → Deleted p id s x → SameData p s x.1
      go (ok _, t) h = h.0
      go (err _, t) h = h.0

  find-SameData : (s : S) → SameData p s (p.find_scheduler id s).1
  find-SameData s = go (p.find_scheduler id s) (lawful.find_scheduler_law id s)
    where
      go : (x : Result (Option Scheduler) × S) → Found p id s x → SameData p s x.1
      go (ok _, t) h = h.1
      go (err _, t) h = h.1

  reset_timer-SameData :
      (wanted : Option String) (s : S) → SameData p s (reset_timer p id wanted s).1
  unfolding reset_timer
  reset_timer-SameData wanted s =
      let (one, _) = lawful.set_time_law id wanted s in
      let (two, _) = lawful.start_job_law id (p.set_time id wanted s).1 in ground arith

  module _ (c : Context) where
    adopt_cron-SameData :
        (wanted : Option String) (w : World S) → SameData p w.env (adopt_cron p id c wanted w).1.env
    unfolding adopt_cron
    adopt_cron-SameData wanted w = ground (arith, reset_timer-SameData wanted w.env)

    check_row-SameData :
        (o : Option Scheduler) (w : World S) → SameData p w.env (check_row p id c o w).1.env
    unfolding check_row
    check_row-SameData none w = ground (arith, delete-SameData w.env)
    check_row-SameData (some r) w = ground (arith, adopt_cron-SameData (c.cron_expression r.cron) w)

    after_find-SameData :
        (x : Result (Option Scheduler) × S) (w : World S)
        → SameData p w.env x.1
        → SameData p w.env (and_then x.0 (check_row p id c) (record w { env = x.1 })).1.env
    after_find-SameData (err e, t) w h = h
    after_find-SameData (ok o, t) w h = ground (arith, check_row-SameData o (record w { env = t }))

    pub check_state-SameData : (w : World S) → SameData p w.env (check_state p id c w).1.env
    unfolding check_state get_scheduler
    check_state-SameData w = after_find-SameData (p.find_scheduler id w.env) w (find-SameData w.env)

    adopt_cron-false :
        (wanted : Option String) (w : World S) → (adopt_cron p id c wanted w).0 ≢ ok true
    unfolding adopt_cron
    adopt_cron-false wanted w = ground arith

    check_row-true :
        (r : Scheduler) (w : World S)
        → (check_row p id c (some r) w).0 ≡ ok true
        → (r.process ≡ false) × (same_cron w.cron (c.cron_expression r.cron) ≡ true)
    unfolding check_row
    check_row-true r w e = ground (arith, adopt_cron-false (c.cron_expression r.cron) w)

    check_row-none : (w : World S) → (check_row p id c none w).0 ≢ ok true
    unfolding check_row
    check_row-none w = ground arith

    -- The row for which a check passes: it is not marked, and its cron string is the job's.
    abbrev pub IsDue : World S → Scheduler → Type 0
    IsDue w r =
        (p.scheduler_row (p.committed w.env) id ≡ some r)
        × (r.process ≡ false)
        × (same_cron w.cron (c.cron_expression r.cron) ≡ true)

    after_find-IsDue :
        (x : Result (Option Scheduler) × S) (w : World S)
        → Found p id w.env x
        → (and_then x.0 (check_row p id c) (record w { env = x.1 })).0 ≡ ok true
        → (r : Scheduler) × IsDue w r
    after_find-IsDue (err e, t) w h eq = cc
    after_find-IsDue (ok none, t) w h eq = absurd (check_row-none (record w { env = t }) eq)
    after_find-IsDue (ok (some r), t) w h eq =
        let (idle, due) = check_row-true r (record w { env = t }) eq in (r, (sym h.0, idle, due))

    pub check_state-IsDue :
        (w : World S) → (check_state p id c w).0 ≡ ok true → (r : Scheduler) × IsDue w r
    unfolding check_state get_scheduler
    check_state-IsDue w e =
        after_find-IsDue (p.find_scheduler id w.env) w (lawful.find_scheduler_law id w.env) e

    after_find-busy :
        (x : Result (Option Scheduler) × S) (w : World S) (r : Scheduler)
        → p.scheduler_row (p.committed w.env) id ≡ some r
        → r.process ≡ true
        → Found p id w.env x
        → let (o, v) = (and_then x.0 (check_row p id c) (record w { env = x.1 })) in
          ((o ≡ ok false)
            × (v.logger.log_level ≡ warn)
            × (v.logger.message ≡ some "already processing"))
          ⊎ ((m : Option String) × (o ≡ err (error m)))
    unfolding check_row set_message set_logger_level
    after_find-busy (ok o, t) w r found busy h =
        let e : o ≡ some r = h.0 ∙ found in rw (e, busy) (inl (refl, refl, refl))
    after_find-busy (err (error m), t) w r found busy h = inr (m, refl)
    after_find-busy (err (exception x), t) w r found busy h = absurd h.0

    pub check_state-busy :
        (w : World S) (r : Scheduler)
        → p.scheduler_row (p.committed w.env) id ≡ some r
        → r.process ≡ true
        → let (o, v) = check_state p id c w in
          ((o ≡ ok false)
            × (v.logger.log_level ≡ warn)
            × (v.logger.message ≡ some "already processing"))
          ⊎ ((m : Option String) × (o ≡ err (error m)))
    unfolding check_state get_scheduler
    check_state-busy w r found busy =
        after_find-busy (p.find_scheduler id w.env) w r found busy
          (lawful.find_scheduler_law id w.env)
