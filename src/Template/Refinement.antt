-- ===== src/Template/Refinement.antt =====
-- The jobs of the pair and the interaction template as machines.
use blockchain_task_server.Common.{ℕ, String, false, List}
use blockchain_task_server.Platform.{Platform, IsLawful}
use blockchain_task_server.BigNumber.{BigNumberLib}
use blockchain_task_server.SchedulerLogger.{LogValue}
use blockchain_task_server.SchedulerJob.{World, Context}
use blockchain_task_server.SchedulerJob.Exclusion.{ticks}
use blockchain_task_server.SchedulerJob.Machine.{Reaches, ticks_refine}
use blockchain_task_server.Template.Machine.{Moved-Reaches}
use blockchain_task_server.Template.Pair.Data.{TokenParams, PairContext}
use blockchain_task_server.Template.Pair.Staging
use blockchain_task_server.Template.Pair.Transaction.{IsWindow, body_atomic}
use blockchain_task_server.Template.Interaction.{Interaction, InteractionContext}
use blockchain_task_server.Template.Interaction.Writes
use blockchain_task_server.Template.Interaction.Writes.{IsBlocks, run_atomic}
use blockchain_task_server.Template.Interaction.{run as interaction_run}
use blockchain_task_server.Template.Pair.{run as pair_run}

-- If the calls of the job's context only read, then the tables behind any number of ticks of a job of the
-- interaction template are reached by setting flags of its scheduler, and by writes of the calls of some
-- blocks together with the scheduler's block number.
pub interaction_ticks_refine :
    {S T B : Type 0} (p : Platform (List Interaction) S T) (lawful : IsLawful p) (id : String)
    (c : InteractionContext S) (reader : Writes.IsReader p lawful id c) (lib : BigNumberLib B)
    (context : Context) (times : List (ℕ × ℕ)) (w : World S)
    → Reaches p lawful id
        (IsBlocks p lawful id c)
        (p.committed w.env)
        (p.committed (ticks p id context (interaction_run p id c lib) times w).env)
interaction_ticks_refine p lawful id c reader lib context times w =
    ticks_refine p lawful id (IsBlocks p lawful id c) context (interaction_run p id c lib)
      (λ v.
        Moved-Reaches p lawful id (IsBlocks p lawful id c) _ _
          (run_atomic p lawful id c reader lib v))
      times w

-- If the calls of the job's context only read, then the tables behind any number of ticks of a job of the
-- pair template are reached by setting flags of its scheduler, and by writes of tokens together with the
-- scheduler's `pid`.
pub pair_ticks_refine :
    {S T B : Type 0} (p : Platform (List TokenParams) S T) (lawful : IsLawful p) (id : String)
    (c : PairContext S) (reader : Staging.IsReader p lawful id c) (lib : BigNumberLib B)
    (context : Context) (times : List (ℕ × ℕ)) (w : World S)
    → Reaches p lawful id
        (IsWindow p lawful id c reader)
        (p.committed w.env)
        (p.committed (ticks p id context (pair_run p id c lib) times w).env)
unfolding pair_run
pair_ticks_refine p lawful id c reader lib context times w =
    ticks_refine p lawful id (IsWindow p lawful id c reader) context (pair_run p id c lib)
      (λ v. Moved-Reaches p lawful id (IsWindow p lawful id c reader) _ _ (
        body_atomic p lawful id c reader lib (record {
          env = v.env;
          runner = false;
          notes = record {
            total = LogValue.null;
            current = LogValue.null;
            start = LogValue.null;
            end = LogValue.null;
          };
        })))
      times w
