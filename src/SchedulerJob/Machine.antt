-- ===== src/SchedulerJob/Machine.antt =====
-- The abstract view of a job: a machine on the tables, whose steps set flags of the job's own scheduler, or
-- perform the writes of a unit of work.
use mathlib.Core.Path.{subst}
use blockchain_task_server.Common.{
  ℕ, String, ◌<>◌, true, false, Option, none, some, List, [], ◌∷◌, ◌≡◌, refl, sym, inl, inr,
  Bool-cases,
}
use blockchain_task_server.Exceptions.{ExceptionLevel, normal, fatal, Thrown, exception}
use blockchain_task_server.Effects.{
  Result, ok, err, Action, pure, from_result, try_catch, ◌>>=◌, ◌>>◌,
}
use blockchain_task_server.Effects.Rules.{
  Keeps, IsPreorder, bind-Keeps, try_catch-Keeps, try_finally-Keeps, when-Keeps,
}
use blockchain_task_server.Entities.{Scheduler, SchedulerSet}
use blockchain_task_server.Platform.{
  Platform, IsLawful, Write, update_scheduler, apply_all, Wrote, Found, Deleted, SameData,
}
use blockchain_task_server.SchedulerLogger.{
  warn, new_logger, set_message, set_logger_level, set_error,
}
use blockchain_task_server.SchedulerJob.{
  World, print_cron, on_env, on_logger, Context, same_cron, get_scheduler, update_processing,
  update_status, update_error, retire, revive, reset_timer, adopt_cron, check_row, check_state,
  target_of, handle_level, handle, finish, work, attempt, process_work,
}
use blockchain_task_server.SchedulerJob.Exclusion.{ticks}

-- The columns that hold a job's progress are not set.
abbrev pub IsFlags : SchedulerSet → Type 0
IsFlags set = (set.pid ≡ none) × (set.block_number ≡ none)

module _ {W S T : Type 0} (p : Platform W S T) (lawful : IsLawful p) (id : String)
    (IsUnit : List (Write W) → Type 0) where
  open p use {committed, effect}

  -- The second tables are reached from the first.
  pub data Reaches : T → T → Type 0 where
    stays : (a b : T) → a ≡ b → Reaches a b
    flags :
        (a b : T) (set : SchedulerSet)
        → IsFlags set
        → Reaches (effect (update_scheduler (some id) set) a) b
        → Reaches a b
    performs :
        (a b : T) (ws : List (Write W))
        → IsUnit ws
        → Reaches (apply_all effect ws a) b
        → Reaches a b

  pub Reaches-trans : (a b c : T) → Reaches a b → Reaches b c → Reaches a c
  Reaches-trans _ _ c (stays a b e) k = subst (λ x. Reaches x c) (sym e) k
  Reaches-trans _ _ c (flags a b set f h) k = flags a c set f (Reaches-trans _ b c h k)
  Reaches-trans _ _ c (performs a b ws u h) k = performs a c ws u (Reaches-trans _ b c h k)

  -- What an action does to the tables is a run of the machine.
  abbrev pub Steps : S → S → Type 0
  Steps s t = Reaches (committed s) (committed t)

  Steps-same : (s t : S) → SameData p s t → Steps s t
  Steps-same s t (e, _) = stays _ _ (sym e)

  wrote-Steps :
      (set : SchedulerSet) (s : S) (x : Result (Unit {0}) × S)
      → IsFlags set
      → Wrote p (update_scheduler (some id) set) s x
      → Steps s x.1
  wrote-Steps set s (ok _, t) f (e, _, _) = flags _ _ set f (stays _ _ (sym e))
  wrote-Steps set s (err z, t) f (same, _) = Steps-same s t same

  deleted-Steps : (s : S) (x : Result (Unit {0}) × S) → Deleted p id s x → Steps s x.1
  deleted-Steps s (ok _, t) (same, _) = Steps-same s t same
  deleted-Steps s (err z, t) (same, _) = Steps-same s t same

  found-Steps : (s : S) (x : Result (Option Scheduler) × S) → Found p id s x → Steps s x.1
  found-Steps s (ok r, t) (_, same, _) = Steps-same s t same
  found-Steps s (err z, t) (_, same, _) = Steps-same s t same

  pub Steps-IsPreorder : IsPreorder Steps
  Steps-IsPreorder = record {
    same = λ s. stays _ _ refl;
    chain = λ s t u h k. Reaches-trans (committed s) (committed t) (committed u) h k;
  }

  -- The same, for actions of a job.
  abbrev pub JobSteps : World S → World S → Type 0
  JobSteps w v = Steps w.env v.env

  pub JobSteps-IsPreorder : IsPreorder JobSteps
  JobSteps-IsPreorder = record {
    same = λ w. stays _ _ refl;
    chain = λ w v u h k. Reaches-trans (committed w.env) (committed v.env) (committed u.env) h k;
  }

  abbrev seq :
      {A B : Type 0} (m : Action S A) (f : A → Action S B)
      → Keeps Steps m
      → ((a : A) → Keeps Steps (f a))
      → Keeps Steps (m >>= f)
  seq = bind-Keeps Steps Steps-IsPreorder

  abbrev job_seq :
      {A B : Type 0} (m : Action (World S) A) (f : A → Action (World S) B)
      → Keeps JobSteps m
      → ((a : A) → Keeps JobSteps (f a))
      → Keeps JobSteps (m >>= f)
  job_seq = bind-Keeps JobSteps JobSteps-IsPreorder

  stay : (w : World S) → JobSteps w w
  stay w = stays _ _ refl

  write-Steps :
      (set : SchedulerSet) → IsFlags set → Keeps Steps (p.write (update_scheduler (some id) set))
  write-Steps set f s =
      wrote-Steps set s (p.write (update_scheduler (some id) set) s) f
        (lawful.write_law (update_scheduler (some id) set) s)

  retire-Steps : Keeps Steps (retire p id)
  unfolding retire update_status update_error
  retire-Steps =
      seq (p.delete_cron_job id) _
        (λ s. deleted-Steps s (p.delete_cron_job id s) (lawful.delete_law id s))
        λ _.
          seq (update_status p id false) _ (write-Steps _ (refl, refl))
            λ _. write-Steps _ (refl, refl)

  revive-Steps : Keeps Steps (revive p id)
  unfolding revive update_status update_processing
  revive-Steps =
      seq (update_status p id true) _ (write-Steps _ (refl, refl)) λ _. write-Steps _ (refl, refl)

  reset_timer-Steps : (wanted : Option String) → Keeps Steps (reset_timer p id wanted)
  unfolding reset_timer
  reset_timer-Steps wanted =
      seq (p.set_time id wanted) _ (λ s. Steps-same s _ (lawful.set_time_law id wanted s).0)
        λ _ s. Steps-same s _ (lawful.start_job_law id s).0

  module _ (c : Context) where
    adopt_cron-Steps : (wanted : Option String) → Keeps JobSteps (adopt_cron p id c wanted)
    unfolding adopt_cron
    adopt_cron-Steps wanted w = elim (Bool-cases (c.is_cron_string wanted)) [
      | inl e ↦ rw e (
          job_seq (on_env (reset_timer p id wanted)) (λ _. pure false)
            (λ v. reset_timer-Steps wanted v.env) (λ _. stay)
            (record w {
              cron = wanted;
              logger =
                  set_message
                    ("change cron ("
                      <> (print_cron w.cron <> (" => " <> (print_cron wanted <> ")"))))
                    w.logger;
            }))
      | inr e ↦ rw e (stay w)
    ]

    check_row-Steps : (r : Option Scheduler) → Keeps JobSteps (check_row p id c r)
    unfolding check_row
    check_row-Steps none w =
        job_seq (on_env (p.delete_cron_job id))
          (λ _.
            on_logger (set_message "Not found scheduler")
            >> (on_logger (set_logger_level warn) >> pure false))
          (λ v. deleted-Steps v.env (p.delete_cron_job id v.env) (lawful.delete_law id v.env))
          (λ _. stay) w
    check_row-Steps (some r) w = elim (Bool-cases r.process) [
      | inl e ↦ rw e (stay w)
      | inr e ↦ rw e (elim (Bool-cases (same_cron w.cron (c.cron_expression r.cron))) [
        | inl same ↦ rw same (stay w)
        | inr changed ↦ rw changed (adopt_cron-Steps (c.cron_expression r.cron) w)
      ])
    ]

    check_state-Steps : Keeps JobSteps (check_state p id c)
    unfolding check_state get_scheduler
    check_state-Steps =
        job_seq (on_env (p.find_scheduler id)) _
          (λ w. found-Steps w.env (p.find_scheduler id w.env) (lawful.find_scheduler_law id w.env))
          check_row-Steps

    handle_level-Steps : (level : ExceptionLevel) → Keeps JobSteps (handle_level p id c level)
    unfolding handle_level
    handle_level-Steps fatal w = retire-Steps w.env
    handle_level-Steps normal w = revive-Steps w.env

    handle-Steps : (thrown : Thrown) → Keeps JobSteps (handle p id c thrown)
    unfolding handle
    handle-Steps thrown =
        job_seq (from_result (target_of p id c thrown))
          (λ e. on_logger (set_error c.to_json (exception e)) >> handle_level p id c e.level) stay
          λ e w.
            handle_level-Steps e.level
              (record w { logger = set_error c.to_json (exception e) w.logger })

    module _ (run : Action (World S) (Unit {0})) (run-Steps : Keeps JobSteps run) where
      work-Steps : Keeps JobSteps (work p id c run)
      unfolding work update_processing
      work-Steps =
          job_seq (on_env (update_processing p id true)) _ (λ w. write-Steps _ (refl, refl) w.env)
            λ _. job_seq run _ run-Steps λ _.
              job_seq (on_env (update_processing p id false)) _
                (λ w. write-Steps _ (refl, refl) w.env) λ _. stay

      attempt-Steps : Keeps JobSteps (attempt p id c run)
      unfolding attempt
      attempt-Steps =
          job_seq (check_state p id c) _ check_state-Steps
            λ due. when-Keeps JobSteps JobSteps-IsPreorder due (work p id c run) work-Steps

      process_work-Steps : (begun ended : ℕ) → Keeps JobSteps (process_work p id c run begun ended)
      unfolding process_work finish
      process_work-Steps begun ended w =
          try_finally-Keeps JobSteps JobSteps-IsPreorder
            (try_catch (attempt p id c run) (handle p id c)) (finish p id c ended)
            (try_catch-Keeps JobSteps JobSteps-IsPreorder (attempt p id c run) (handle p id c)
              attempt-Steps handle-Steps)
            stay (record w { logger = new_logger id begun })

      -- If `run` performs units of work only, then the tables behind any number of ticks are reached by
      -- the machine: by setting flags of the job's scheduler and by units of work.
      pub ticks_refine :
          (times : List (ℕ × ℕ)) (w : World S)
          → Reaches (committed w.env) (committed (ticks p id c run times w).env)
      unfolding ticks
      ticks_refine [] w = stay w
      ticks_refine ((begun, ended) ∷ times) w =
          let v = (process_work p id c run begun ended w).1 in
          Reaches-trans (committed w.env) (committed v.env)
            (committed (ticks p id c run times v).env) (process_work-Steps begun ended w)
            (ticks_refine times v)
