-- ===== src/AutoFarmJob/Refinement.antt =====
-- The job as a machine.
use blockchain_task_server.Common.{ℕ, String, List, ◌≡◌, refl}
use blockchain_task_server.Effects.Rules.{Keeps, unchanged-IsPreorder, bind-Keeps}
use blockchain_task_server.Platform.{Platform, IsLawful}
use blockchain_task_server.BigNumber.{BigNumberLib}
use blockchain_task_server.SchedulerJob.{World, Context}
use blockchain_task_server.SchedulerJob.Exclusion.{ticks}
use blockchain_task_server.SchedulerJob.Machine.{Reaches}
use blockchain_task_server.FarmJob.Loop.Tables.{attempt_with-Steps, run_logging_refine}
use blockchain_task_server.AutoFarmJob.{
  StratWrite, StratContext, visit_try, get_farm_state, attempt, run,
}
use blockchain_task_server.AutoFarmJob.Units.{IsVisit, IsReader, visit_try-Moved}

module _ {S T B : Type 0} (p : Platform StratWrite S T) (lawful : IsLawful p) (c : StratContext S B)
    (reader : IsReader p lawful c) (lib : BigNumberLib B) (id : String) where
  abbrev Same : S → S → Type 0
  Same s t = p.committed t ≡ p.committed s

  get_farm_state-Same : Keeps Same (get_farm_state p lib c)
  unfolding get_farm_state
  get_farm_state-Same =
      bind-Keeps Same (unchanged-IsPreorder p.committed) c.get_farm_total_alloc_point _
        (λ s. (reader.alloc_reads s).0)
        λ total.
          bind-Keeps Same (unchanged-IsPreorder p.committed) c.get_farm_reward_per_block _
            (λ s. (reader.reward_reads s).0) λ reward s. refl

  -- If the calls of the job's context only read, then the tables behind any number of ticks of the job for
  -- farms with a strategy
  -- are reached by setting flags of its scheduler, and by visits of a pid: the end of the
  -- farm that is found there; or a refresh of the active farm that is found there, together with its creation
  -- if the job has just created it; or a creation alone, if the farm is found inactive behind it.
  pub strat_ticks_refine :
      (context : Context) (times : List (ℕ × ℕ)) (w : World S)
      → Reaches p lawful id
          (IsVisit p c)
          (p.committed w.env)
          (p.committed (ticks p id context (run p lib c) times w).env)
  unfolding run attempt
  strat_ticks_refine = run_logging_refine p lawful c.to_json (IsVisit p c) id (attempt p lib c) (
      attempt_with-Steps p lawful c.to_json (IsVisit p c) id c.get_farm_total_length
        c.get_farm_infos (get_farm_state p lib c) (visit_try p lib c) reader.total_reads
        reader.infos_reads get_farm_state-Same (visit_try-Moved p lawful c reader lib))
