-- ===== src/Template/Interaction/Blocked.antt =====
-- An error of the node, in the call that the interaction template makes outside of its `try`.
use blockchain_task_server.Common.{ℕ, String, Option, List, ◌≡◌, ◌∙◌, ap, arith}
use blockchain_task_server.Exceptions.{error}
use blockchain_task_server.Effects.{ok, err}
use blockchain_task_server.Platform.{Platform, IsLawful}
use blockchain_task_server.BigNumber.{BigNumberLib}
use blockchain_task_server.SchedulerJob.{World, Context, process_work}
use blockchain_task_server.SchedulerJob.ErrorHandler.{error_handler}
use blockchain_task_server.SchedulerJob.Exclusion.{
  IsBusy, Enters, entered, ticks, process_work_blocks,
}
use blockchain_task_server.Template.Interaction.{
  Interaction, InteractionContext, get_scheduler_block_number, run,
}
use blockchain_task_server.Template.Interaction.Writes.{
  IsReader, get_scheduler_block_number-committed,
}

module _ {S T B : Type 0} (p : Platform (List Interaction) S T) (lawful : IsLawful p) (id : String)
    (c : InteractionContext S) (reader : IsReader p lawful id c) (lib : BigNumberLib B)
    (context : Context) where
  -- The state in which the node is asked for its block number.
  abbrev pub asked : S → S
  asked s = (get_scheduler_block_number p id c s).1

  raised :
      (w : World S) (n : ℕ) (m : Option String)
      → (get_scheduler_block_number p id c w.env).0 ≡ ok n
      → (c.get_block_number (asked w.env)).0 ≡ err (error m)
      → ((run p id c lib w).0 ≡ err (error m))
        × ((run p id c lib w).1.env ≡ (c.get_block_number (asked w.env)).1)
  unfolding run
  raised w n m h k = (ground (arith, h, k), ground (arith, h, k))

  -- If the calls of the job's context only read, a tick enters the `run` of the interaction template, the
  -- scheduler's block number is read, and the call of `getBlockNumber` throws an error that is no
  -- exception of the program, then the tick is rejected, and the scheduler stays marked as working, then and through all later ticks.
  pub node_error_blocks :
      (begun ended : ℕ) (times : List (ℕ × ℕ)) (w : World S) (n : ℕ) (m : Option String)
      → Enters p lawful id context begun w
      → (get_scheduler_block_number p id c (entered p lawful id context begun w).env).0 ≡ ok n
      → (c.get_block_number (asked (entered p lawful id context begun w).env)).0 ≡ err (error m)
      → let (result, w') = process_work p id context (run p id c lib) begun ended w in
        (result ≡ error_handler (error m))
        × IsBusy p lawful id context w'.env
        × IsBusy p lawful id context (ticks p id context (run p id c lib) times w').env
  node_error_blocks begun ended times w n m enters h k =
      let v = entered p lawful id context begun w in
      let (thrown, left) = raised v n m h k in
      process_work_blocks p lawful id context (run p id c lib) begun ended times w m enters thrown (
        ap (λ s. p.scheduler_row (p.committed s) id) left
        ∙ ap (λ d. p.scheduler_row d id)
            ((reader.block_number_reads (asked v.env)).0
              ∙ get_scheduler_block_number-committed p lawful id c v.env))
