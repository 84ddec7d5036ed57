-- ===== src/FarmJob/Loop/Tables.antt =====
-- What the loop over the pids does to the tables, given what the `try` block of a pid does to them.
use blockchain_task_server.Common.{ℕ, String, Option, false, List, ◌≡◌, refl, sym, ap, arith}
use blockchain_task_server.Exceptions.{Thrown}
use blockchain_task_server.Effects.{
  Result, ok, err, Action, and_then, modify, from_result, ◌>>=◌, for_each,
}
use blockchain_task_server.Effects.Rules.{Keeps, bind-Keeps, for_each-Keeps, try_catch-Keeps}
use blockchain_task_server.Arrays.{fill_sequence_number}
use blockchain_task_server.Platform.{Platform, IsLawful, Write, SameData}
use blockchain_task_server.SchedulerLogger.{LogValue, set_data}
use blockchain_task_server.SchedulerJob.{World, Context}
use blockchain_task_server.SchedulerJob.ErrorHandler.{error_handler}
use blockchain_task_server.SchedulerJob.Exclusion.{ticks}
use blockchain_task_server.SchedulerJob.Machine.{
  Reaches, Reaches-trans, stays, ticks_refine, JobSteps, JobSteps-IsPreorder,
}
use blockchain_task_server.Template.{Local, on_env, on_notes}
use blockchain_task_server.Template.Atomic.{Moved, try-Moved}
use blockchain_task_server.Template.Machine.{Moved-Reaches, LocalSteps, LocalSteps-IsPreorder}
use blockchain_task_server.FarmJob.Loop.{
  FarmNotes, visit_catch, visit_finally, visit_with, attempt_with, run_farms, run_logging,
  attempt_logging, first_local, entries,
}

module _ {W S T : Type 0} (p : Platform W S T) (lawful : IsLawful p)
    (to_json : Thrown → Option String) (IsVisit : List (Write W) → Type 0) where
  -- The tables stay, or take the writes for one pid.
  abbrev pub Kept : Action (Local S FarmNotes) (Unit {0}) → Type 0
  Kept m =
      (l : Local S FarmNotes) → Moved p lawful IsVisit (p.committed l.env) (p.committed (m l).1.env)

  pub visit_catch-committed :
      (pid : ℕ) (e : Thrown) (l : Local S FarmNotes)
      → p.committed (visit_catch p to_json pid e l).1.env ≡ p.committed l.env
  unfolding visit_catch
  visit_catch-committed pid e l = ground (arith, lawful.rollback_law l.env)

  pub visit_finally-committed :
      (l : Local S FarmNotes) → p.committed (visit_finally p to_json l).1.env ≡ p.committed l.env
  unfolding visit_finally
  visit_finally-committed l = ground (arith, lawful.release_law l.env)

  pub visit_with-Moved :
      (body : Action (Local S FarmNotes) (Unit {0})) (pid : ℕ)
      → Kept body
      → Kept (visit_with p to_json body pid)
  unfolding visit_with
  visit_with-Moved body pid h l =
      try-Moved p lawful IsVisit (λ x. x.env) body (visit_catch p to_json pid)
        (visit_finally p to_json) (record l { runner = false }) (visit_catch-committed pid)
        visit_finally-committed (h (record l { runner = false }))

  module _ (id : String) where
    abbrev pub FarmSteps : Local S FarmNotes → Local S FarmNotes → Type 0
    FarmSteps = LocalSteps p lawful id IsVisit

    abbrev pub seq :
        {A : Type 0} (m : Action (Local S FarmNotes) A)
        (f : A → Action (Local S FarmNotes) (Unit {0}))
        → Keeps FarmSteps m
        → ((a : A) → Keeps FarmSteps (f a))
        → Keeps FarmSteps (m >>= f)
    seq = bind-Keeps FarmSteps (LocalSteps-IsPreorder p lawful id IsVisit)

    -- A call that leaves the tables as they are.
    pub reads-Steps :
        {A : Type 0} (m : Action S A)
        → Keeps (λ s t. p.committed t ≡ p.committed s) m
        → Keeps FarmSteps (on_env m)
    reads-Steps m h l = stays _ _ (sym (h l.env))

    -- If a job's attempt is a run of the machine, then so are its ticks.
    pub run_farms_refine :
        (attempt : Action (Local S FarmNotes) (Unit {0}))
        → Keeps FarmSteps attempt
        → (context : Context) (times : List (ℕ × ℕ)) (w : World S)
        → Reaches p lawful id IsVisit
            (p.committed w.env)
            (p.committed (ticks p id context (run_farms attempt) times w).env)
    run_farms_refine attempt h context times w =
        ticks_refine p lawful id IsVisit context (run_farms attempt)
          (λ v.
            try_catch-Keeps FarmSteps (LocalSteps-IsPreorder p lawful id IsVisit) attempt
              (λ e. from_result (error_handler e)) h (λ e l. stays _ _ refl)
              (record {
                env = v.env;
                runner = false;
                notes = record { total = LogValue.null; failed = List.[] };
              }))
          times w

    logged :
        (r : Result (Unit {0})) (v : World S) (f : World S → World S)
        → ((u : World S) → (f u).env ≡ u.env)
        → p.committed (and_then r (λ _. modify f) v).1.env ≡ p.committed v.env
    logged (ok _) v f h = ap p.committed (h v)
    logged (err e) v f h = refl

    -- The same, for the jobs that log behind the loop.
    pub run_logging_refine :
        (attempt : Action (Local S FarmNotes) (Unit {0}))
        → Keeps FarmSteps attempt
        → (context : Context) (times : List (ℕ × ℕ)) (w : World S)
        → Reaches p lawful id IsVisit
            (p.committed w.env)
            (p.committed (ticks p id context (run_logging attempt) times w).env)
    run_logging_refine attempt h context times w =
        ticks_refine p lawful id IsVisit context (run_logging attempt)
          (try_catch-Keeps (JobSteps p lawful id IsVisit) (JobSteps-IsPreorder p lawful id IsVisit)
            (attempt_logging attempt) (λ e. from_result (error_handler e))
            (λ u.
              let x = attempt (first_local u.env) in
              let add_data =
                λ (y : World S). record y { logger = set_data (entries x.1.notes) y.logger } in
              Reaches-trans p lawful id IsVisit _ _ _ (h (first_local u.env))
                (stays _ _ (sym (logged x.0 (record u { env = x.1.env }) add_data (λ y. refl)))))
            (λ e u. stays _ _ refl))
          times w

    module _ {I F : Type 0} (network_pid : Action S ℕ) (get_infos : List ℕ → Action S (List I))
        (get_state : Action S F)
        (visit_try : F → List I → ℕ → Action (Local S FarmNotes) (Unit {0}))
        (pid_reads : Keeps (SameData p) network_pid)
        (infos_reads : (pids : List ℕ) → Keeps (SameData p) (get_infos pids))
        (state_reads : Keeps (λ s t. p.committed t ≡ p.committed s) get_state)
        (visit_keeps : (state : F) (infos : List I) (pid : ℕ)
          → Kept (visit_try state infos pid)) where
      abbrev loop : F → List I → ℕ → Action (Local S FarmNotes) (Unit {0})
      loop state infos pid = visit_with p to_json (visit_try state infos pid) pid

      abbrev from_infos : ℕ → Action (Local S FarmNotes) (Unit {0})
      from_infos n = on_env (get_infos (fill_sequence_number n 0)) >>= λ infos.
          on_env get_state >>= λ state. for_each (loop state infos) (fill_sequence_number n 0)

      from_infos-Steps : (n : ℕ) → Keeps FarmSteps (from_infos n)
      from_infos-Steps n =
          seq (on_env (get_infos (fill_sequence_number n 0))) _
            (reads-Steps (get_infos (fill_sequence_number n 0))
              (λ s. (infos_reads (fill_sequence_number n 0) s).0))
            λ infos. seq (on_env get_state) _ (reads-Steps get_state state_reads) λ state.
              for_each-Keeps FarmSteps (LocalSteps-IsPreorder p lawful id IsVisit)
                (loop state infos) (fill_sequence_number n 0)
                λ pid l.
                  Moved-Reaches p lawful id IsVisit _ _ (
                    visit_with-Moved (visit_try state infos pid) pid (visit_keeps state infos pid)
                      l)

      pub attempt_with-Steps :
          Keeps FarmSteps (attempt_with p to_json network_pid get_infos get_state visit_try)
      unfolding attempt_with
      attempt_with-Steps =
          seq (on_env network_pid) _ (reads-Steps network_pid (λ s. (pid_reads s).0)) λ n.
            seq (on_notes (λ notes. record notes { total = LogValue.number n })) (λ _. from_infos n)
              (λ l. stays _ _ refl) (λ _. from_infos-Steps n)
