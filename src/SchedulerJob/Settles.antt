-- ===== src/SchedulerJob/Settles.antt =====
-- What a tick that returns leaves behind in the row of its scheduler.
use blockchain_task_server.Common.{
  ℕ, String, Bool, true, false, some, ◌≡◌, ◌⊎◌, inl, inr, refl, arith, ap, ◌∙◌, sym, OnSome,
  OnSome-of, OnSome-at, if◌then◌else◌,
}
use blockchain_task_server.Exceptions.{ExceptionLevel, normal, fatal, Thrown, exception, error}
use text.Mathlib.TextPositions.{eq_refl}
use blockchain_task_server.Effects.{Result, ok, err, Action, recover, and_then, when}
use blockchain_task_server.Entities.{Scheduler, SchedulerSet, no_columns}
use blockchain_task_server.Platform.{Platform, IsLawful, update_scheduler, Deleted, SameData}
use blockchain_task_server.SchedulerJob.Checks.{check_state-SameData}
use blockchain_task_server.SchedulerLogger.{new_logger, set_error}
use blockchain_task_server.Platform.Rows.{map_option-some, row, row-update_self, registered-update}
use blockchain_task_server.SchedulerJob.{
  World, Context, update_processing, update_status, update_error, retire, revive, check_state, work,
  attempt, handle_level, handle, target_of, finish, process_work,
}

module _ {W S T : Type 0} (p : Platform W S T) (lawful : IsLawful p) (id : String) where
  -- The scheduler is not marked as working.
  abbrev pub IsIdle : S → Type 0
  IsIdle s = OnSome (λ r. r.process ≡ false) (row p s id)

  -- The scheduler is marked as failed, and its job has left the registry.
  abbrev pub IsRetired : S → Type 0
  IsRetired s =
      OnSome (λ r. (r.status ≡ false) × (r.error ≡ true)) (row p s id) × (p.registered s id ≡ false)

  update_processing-process :
      (s : S) (r : Scheduler)
      → (update_processing p id false s).0 ≡ ok tt
      → row p (update_processing p id false s).1 id ≡ some r
      → r.process ≡ false
  unfolding update_processing
  update_processing-process s r e h =
      let set : SchedulerSet = record no_columns { process = some false } in
      let (q, _, same) = map_option-some set _ (sym (row-update_self p lawful id set s e) ∙ h) in
      ap (λ (x : Scheduler). x.process) same

  update_error-row :
      (s : S) (r : Scheduler)
      → (update_status p id false s).0 ≡ ok tt
      → (update_error p id true (update_status p id false s).1).0 ≡ ok tt
      → row p (update_error p id true (update_status p id false s).1).1 id ≡ some r
      → (r.status ≡ false) × (r.error ≡ true)
  unfolding update_error update_status
  update_error-row s r e f h =
      let off : SchedulerSet = record no_columns { status = some false } in
      let failed : SchedulerSet = record no_columns { error = some true } in
      let s' = (p.write (update_scheduler (some id) off) s).1 in
      let (q, found, same) =
        map_option-some failed _ (sym (row-update_self p lawful id failed s' f) ∙ h) in
      let (q', _, same') =
        map_option-some off _ (sym (row-update_self p lawful id off s e) ∙ found) in
      (
        ap (λ (x : Scheduler). x.status) same ∙ ap (λ (x : Scheduler). x.status) same',
        ap (λ (x : Scheduler). x.error) same,
      )

  delete-registered :
      (s : S)
      → (p.delete_cron_job id s).0 ≡ ok tt
      → p.registered (p.delete_cron_job id s).1 id ≡ false
  delete-registered s e = go (p.delete_cron_job id s) (lawful.delete_law id s) e
    where
      go :
          (x : Result (Unit {0}) × S) → Deleted p id s x → x.0 ≡ ok tt → p.registered x.1 id ≡ false
      go (ok _, t) h e' = h.1 id ∙ ap (λ b. if b then false else p.registered s id) (eq_refl id)
      go (err _, t) h e' = cc

  registered-retire :
      (s : S)
      → (p.delete_cron_job id s).0 ≡ ok tt
      → p.registered
          (update_error p id true (update_status p id false (p.delete_cron_job id s).1).1).1
          id
        ≡ false
  unfolding update_error update_status
  registered-retire s e =
      registered-update p lawful id _ _ id
      ∙ (registered-update p lawful id _ _ id ∙ delete-registered s e)

  revive-process :
      (s : S) (r : Scheduler)
      → (revive p id s).0 ≡ ok tt
      → row p (revive p id s).1 id ≡ some r
      → r.process ≡ false
  unfolding revive
  revive-process s r e h = ground (arith, update_processing-process (update_status p id true s).1 r)

  retire-row :
      (s : S) (r : Scheduler)
      → (retire p id s).0 ≡ ok tt
      → row p (retire p id s).1 id ≡ some r
      → (r.status ≡ false) × (r.error ≡ true)
  unfolding retire
  retire-row s r e h = ground (arith, update_error-row (p.delete_cron_job id s).1 r)

  retire-registered :
      (s : S) → (retire p id s).0 ≡ ok tt → p.registered (retire p id s).1 id ≡ false
  unfolding retire
  retire-registered s e = ground (arith, registered-retire s)

  handle_level-Settled :
      (c : Context) (w : World S) (level : ExceptionLevel)
      → (handle_level p id c level w).0 ≡ ok tt
      → IsIdle (handle_level p id c level w).1.env ⊎ IsRetired (handle_level p id c level w).1.env
  unfolding handle_level
  handle_level-Settled c w normal e = inl (OnSome-of _ _ λ r. revive-process w.env r e)
  handle_level-Settled c w fatal e =
      inr (OnSome-of _ _ (λ r. retire-row w.env r e), retire-registered w.env e)

  handle-Settled :
      (c : Context) (thrown : Thrown) (w : World S)
      → (handle p id c thrown w).0 ≡ ok tt
      → IsIdle (handle p id c thrown w).1.env ⊎ IsRetired (handle p id c thrown w).1.env
  unfolding handle target_of
  handle-Settled c (exception x) w e =
      handle_level-Settled c (record w { logger = set_error c.to_json (exception x) w.logger })
        x.level e
  handle-Settled c (error m) w e = cc

  module _ (c : Context) (run : Action (World S) (Unit {0})) where
    work-process :
        (w : World S) (r : Scheduler)
        → (work p id c run w).0 ≡ ok tt
        → row p (work p id c run w).1.env id ≡ some r
        → r.process ≡ false
    unfolding work
    work-process w r e h =
        let v = (run (record w { env = (update_processing p id true w.env).1 })).1 in
        ground (arith, update_processing-process v.env r)

    attempt-IsIdle :
        (w : World S)
        → IsIdle w.env
        → (attempt p id c run w).0 ≡ ok tt
        → IsIdle (attempt p id c run w).1.env
    unfolding attempt
    attempt-IsIdle w h e = go (check_state p id c w) (check_state-SameData p lawful id c w) e
      where
        go :
            (x : Result Bool × World S)
            → SameData p w.env x.1.env
            → (and_then x.0 (λ b. when b (work p id c run)) x.1).0 ≡ ok tt
            → IsIdle (and_then x.0 (λ b. when b (work p id c run)) x.1).1.env
        go (ok true, v) same e' = OnSome-of _ _ λ r. work-process v r e'
        go (ok false, v) same e' =
            OnSome-of _ _
              λ r found. OnSome-at _ _ h (ap (λ d. p.scheduler_row d id) (sym same.0) ∙ found)
        go (err _, v) same e' = cc

    settled_after :
        (x : Result (Unit {0}) × World S)
        → (x.0 ≡ ok tt → IsIdle x.1.env)
        → (recover x.0 (handle p id c) x.1).0 ≡ ok tt
        → IsIdle (recover x.0 (handle p id c) x.1).1.env
          ⊎ IsRetired (recover x.0 (handle p id c) x.1).1.env
    settled_after (ok _, v) h e = inl (h refl)
    settled_after (err thrown, v) h e = handle-Settled c thrown v e

    -- If the row is not marked as working before a tick, and the tick returns, then afterwards the row
    -- is not marked as working, or it is marked as failed with its status off and the job has left the
    -- registry.
    pub process_work-Settled :
        (begun ended : ℕ) (w : World S)
        → IsIdle w.env
        → (process_work p id c run begun ended w).0 ≡ ok tt
        → IsIdle (process_work p id c run begun ended w).1.env
          ⊎ IsRetired (process_work p id c run begun ended w).1.env
    unfolding process_work finish
    process_work-Settled begun ended w h e =
        let v = record w { logger = new_logger id begun } in
        settled_after (attempt p id c run v) (attempt-IsIdle v h) e
