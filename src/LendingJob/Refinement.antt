-- ===== src/LendingJob/Refinement.antt =====
-- The lending job as a machine.
use blockchain_task_server.Common.{ℕ, String, false, List, refl, sym, length}
use blockchain_task_server.Effects.{Action, ◌>>=◌, for_each, from_result}
use blockchain_task_server.Effects.Rules.{Keeps, bind-Keeps, for_each-Keeps, try_catch-Keeps}
use blockchain_task_server.Platform.{Platform, IsLawful}
use blockchain_task_server.BigNumber.{BigNumberLib}
use blockchain_task_server.SchedulerLogger.{LogValue}
use blockchain_task_server.SchedulerJob.{World, Context}
use blockchain_task_server.SchedulerJob.Exclusion.{ticks}
use blockchain_task_server.SchedulerJob.Machine.{Reaches, stays, ticks_refine}
use blockchain_task_server.SchedulerJob.ErrorHandler.{error_handler}
use blockchain_task_server.Template.{Local, on_env, on_notes}
use blockchain_task_server.Template.Machine.{Moved-Reaches, LocalSteps, LocalSteps-IsPreorder}
use blockchain_task_server.LendingJob.Markets.{LendingWrite, LendingContext}
use blockchain_task_server.LendingJob.Units.{IsVisit, IsReader, crawl_market_atomic}
use blockchain_task_server.LendingJob.{crawl_market, attempt, run}

module _ {S T B : Type 0} (p : Platform LendingWrite S T) (lawful : IsLawful p)
    (c : LendingContext S B) (reader : IsReader p lawful c) (lib : BigNumberLib B)
    (id : String) where
  abbrev seq :
      {A : Type 0} (m : Action (Local S LogValue) A) (f : A → Action (Local S LogValue) (Unit {0}))
      → Keeps (LocalSteps p lawful id IsVisit) m
      → ((a : A) → Keeps (LocalSteps p lawful id IsVisit) (f a))
      → Keeps (LocalSteps p lawful id IsVisit) (m >>= f)
  seq = bind-Keeps (LocalSteps p lawful id IsVisit) (LocalSteps-IsPreorder p lawful id IsVisit)

  attempt-Steps : Keeps (LocalSteps p lawful id IsVisit) (attempt p lib c)
  unfolding attempt
  attempt-Steps =
      seq (on_env c.get_lending_all_markets) _ (λ l. stays _ _ (sym (reader.markets_reads l.env).0))
        λ markets.
          seq (on_notes (λ _. LogValue.number (length markets)))
            (λ _. for_each (crawl_market p lib c) markets) (λ l. stays _ _ refl)
            λ _.
              for_each-Keeps (LocalSteps p lawful id IsVisit)
                (LocalSteps-IsPreorder p lawful id IsVisit) (crawl_market p lib c) markets
                λ market l.
                  Moved-Reaches p lawful id IsVisit _ _
                    (crawl_market_atomic p lawful c reader lib market l)

  run-Steps :
      (w : World S)
      → Reaches p lawful id IsVisit (p.committed w.env) (p.committed (run p lib c w).1.env)
  unfolding run
  run-Steps w =
      try_catch-Keeps (LocalSteps p lawful id IsVisit) (LocalSteps-IsPreorder p lawful id IsVisit)
        (attempt p lib c) (λ e. from_result (error_handler e)) attempt-Steps (λ e l. stays _ _ refl)
        (record { env = w.env; runner = false; notes = LogValue.null })

  -- If the calls of the job's context only read, then the tables behind any number of ticks of the
  -- lending job are reached by setting flags of its scheduler, and by the writes of markets, those for one
  -- market together.
  pub lending_ticks_refine :
      (context : Context) (times : List (ℕ × ℕ)) (w : World S)
      → Reaches p lawful id IsVisit
          (p.committed w.env)
          (p.committed (ticks p id context (run p lib c) times w).env)
  lending_ticks_refine context = ticks_refine p lawful id IsVisit context (run p lib c) run-Steps
