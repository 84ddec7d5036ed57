-- ===== src/SchedulerJob/Exclusion.antt =====
-- Ticks of a job whose row is marked as working, and errors that leave the mark behind.
use blockchain_task_server.Common.{
  ℕ, String, Bool, true, false, Option, some, List, [], ◌∷◌, ◌≡◌, ◌⊎◌, inl, inr, refl, arith, ap,
  ◌∙◌,
}
use blockchain_task_server.Exceptions.{exception, error}
use blockchain_task_server.Effects.{
  Result, ok, err, Action, recover, and_then, when, from_result, ◌>>◌,
}
use blockchain_task_server.Entities.{Scheduler, SchedulerSet, no_columns}
use blockchain_task_server.Platform.{Platform, IsLawful, SameData, map_option, merge}
use blockchain_task_server.Platform.Rows.{row, row-update_self}
use blockchain_task_server.SchedulerLogger.{SchedulerLoggerLevel, warn, new_logger}
use blockchain_task_server.SchedulerJob.{
  World, Context, update_processing, check_state, work, attempt, target_of, handle, finish,
  process_work,
}
use blockchain_task_server.SchedulerJob.ErrorHandler.{error_handler}
use blockchain_task_server.SchedulerJob.Checks.{
  check_state-SameData, check_state-IsDue, check_state-busy,
}

-- The ticks of a job at the given times; a rejected tick does not stop the timer.
unfoldable pub ticks :
    {W S T : Type 0}
    → Platform W S T
    → String
    → Context
    → Action (World S) (Unit {0})
    → List (ℕ × ℕ)
    → World S
    → World S
ticks p id c run [] w = w
ticks p id c run ((begun, ended) ∷ times) w =
    ticks p id c run times (process_work p id c run begun ended w).1

module _ {W S T : Type 0} (p : Platform W S T) (lawful : IsLawful p) (id : String)
    (c : Context) where
  -- The scheduler is marked as working.
  abbrev pub IsBusy : S → Type 0
  IsBusy s = (r : Scheduler) × (row p s id ≡ some r) × (r.process ≡ true)

  -- A tick, given how its check ended.
  abbrev tick_after :
      Action (World S) (Unit {0}) → Result Bool × World S → Result (Unit {0}) × World S
  tick_after run x =
      let (r, v) = and_then x.0 (λ b. when b (work p id c run)) x.1 in recover r (handle p id c) v

  tick_after-skipped :
      (one two : Action (World S) (Unit {0})) (s : S) (x : Result Bool × World S)
      → SameData p s x.1.env
      → (x.0 ≡ ok false) ⊎ ((m : Option String) × (x.0 ≡ err (error m)))
      → (tick_after one x ≡ tick_after two x) × SameData p s (tick_after one x).1.env
  unfolding handle target_of error_handler
  tick_after-skipped one two s (ok true, v) h (inl e) = cc
  tick_after-skipped one two s (ok true, v) h (inr (m, e)) = cc
  tick_after-skipped one two s (ok false, v) h d = (refl, h)
  tick_after-skipped one two s (err (error m), v) h d = (refl, h)
  tick_after-skipped one two s (err (exception x), v) h (inl e) = cc
  tick_after-skipped one two s (err (exception x), v) h (inr (m, e)) = cc

  -- A tick of a job whose row is marked as working does not depend on the job's work, and changes
  -- neither what is committed nor what is pending in the database.
  pub process_work-busy :
      (one two : Action (World S) (Unit {0})) (begun ended : ℕ) (w : World S)
      → IsBusy w.env
      → (process_work p id c one begun ended w ≡ process_work p id c two begun ended w)
        × SameData p w.env (process_work p id c one begun ended w).1.env
  unfolding process_work attempt finish
  process_work-busy one two begun ended w (r, found, busy) =
      let v = record w { logger = new_logger id begun } in
      let (same, kept) =
        tick_after-skipped one two w.env (check_state p id c v)
          (check_state-SameData p lawful id c v)
          (outcome (check_state-busy p lawful id c v r found busy)) in
      (
        ap (λ (y : Result (Unit {0}) × World S). (finish p id c ended >> from_result y.0) y.1) same,
        kept,
      )
    where
      outcome :
          {x : Result Bool} {l : SchedulerLoggerLevel} {m : Option String}
          → ((x ≡ ok false) × (l ≡ warn) × (m ≡ some "already processing"))
            ⊎ ((n : Option String) × (x ≡ err (error n)))
          → (x ≡ ok false) ⊎ ((n : Option String) × (x ≡ err (error n)))
      outcome (inl h) = inl h.0
      outcome (inr h) = inr h

  -- The world in which a tick enters `run`: behind the check and the mark.
  abbrev pub entered : ℕ → World S → World S
  entered begun w =
      let v = (check_state p id c (record w { logger = new_logger id begun })).1 in
      record v { env = (update_processing p id true v.env).1 }

  -- The tick has passed its check and marked the scheduler, and enters `run`.
  abbrev pub Enters : ℕ → World S → Type 0
  Enters begun w =
      let x = check_state p id c (record w { logger = new_logger id begun }) in
      (x.0 ≡ ok true) × ((update_processing p id true x.1.env).0 ≡ ok tt)

  update_processing-IsBusy :
      (s : S) (r : Scheduler)
      → row p s id ≡ some r
      → (update_processing p id true s).0 ≡ ok tt
      → IsBusy (update_processing p id true s).1
  unfolding update_processing
  update_processing-IsBusy s r h e =
      let set : SchedulerSet = record no_columns { process = some true } in
      (merge set r, row-update_self p lawful id set s e ∙ ap (map_option (merge set)) h, refl)

  entered-IsBusy : (begun : ℕ) (w : World S) → Enters begun w → IsBusy (entered begun w).env
  entered-IsBusy begun w (due, marked) =
      let v = record w { logger = new_logger id begun } in
      let (r, (found, _, _)) = check_state-IsDue p lawful id c v due in
      let (same, _) = check_state-SameData p lawful id c v in
      update_processing-IsBusy (check_state p id c v).1.env r
        (ap (λ d. p.scheduler_row d id) same ∙ found) marked

  module _ (run : Action (World S) (Unit {0})) where
    ticks-row :
        (times : List (ℕ × ℕ)) (w : World S)
        → IsBusy w.env
        → row p (ticks p id c run times w).env id ≡ row p w.env id
    unfolding ticks
    ticks-row [] w h = refl
    ticks-row ((begun, ended) ∷ times) w (r, found, busy) =
        let w' = (process_work p id c run begun ended w).1 in
        let (_, (same, _)) = process_work-busy run run begun ended w (r, found, busy) in
        let kept : row p w'.env id ≡ row p w.env id = ap (λ d. p.scheduler_row d id) same in
        ticks-row times w' (r, kept ∙ found, busy) ∙ kept

    raised_in_run :
        (begun ended : ℕ) (w : World S) (m : Option String)
        → Enters begun w
        → (run (entered begun w)).0 ≡ err (error m)
        → ((process_work p id c run begun ended w).0 ≡ error_handler (error m))
          × ((process_work p id c run begun ended w).1.env ≡ (run (entered begun w)).1.env)
    unfolding process_work attempt work handle target_of error_handler finish
    raised_in_run begun ended w m (due, marked) thrown = (ground arith, ground arith)

    -- If a tick marks the row, `run` throws an error that is no exception of the program, and `run`
    -- leaves the row as it is, then the tick is rejected with what `errorHandler` throws, the row stays
    -- marked, and it stays marked through all later ticks.
    pub process_work_blocks :
        (begun ended : ℕ) (times : List (ℕ × ℕ)) (w : World S) (m : Option String)
        → Enters begun w
        → (run (entered begun w)).0 ≡ err (error m)
        → row p (run (entered begun w)).1.env id ≡ row p (entered begun w).env id
        → let (result, w') = process_work p id c run begun ended w in
          (result ≡ error_handler (error m))
          × IsBusy w'.env
          × IsBusy (ticks p id c run times w').env
    process_work_blocks begun ended times w m enters thrown kept =
        let (result, left) = raised_in_run begun ended w m enters thrown in
        let (r, found, busy) = entered-IsBusy begun w enters in
        let w' = (process_work p id c run begun ended w).1 in
        let found' : row p w'.env id ≡ some r = ap (λ s. row p s id) left ∙ (kept ∙ found) in
        (result, (r, found', busy), (r, ticks-row times w' (r, found', busy) ∙ found', busy))
