-- ===== src/PriceJob/Refinement.antt =====
-- The price jobs as machines.
use blockchain_task_server.Common.{ℕ, String, false, List, ◌≡◌, inl, inr, refl, sym, length}
use blockchain_task_server.Effects.{ok, from_result, ◌>>=◌}
use blockchain_task_server.Effects.Rules.{Keeps, bind-Keeps, for_each-Keeps, try_catch-Keeps}
use blockchain_task_server.Lodash.{Lodash}
use blockchain_task_server.Platform.{Platform, IsLawful, Write, SameData}
use blockchain_task_server.BigNumber.{BigNumberLib}
use blockchain_task_server.SchedulerLogger.{LogValue}
use blockchain_task_server.SchedulerJob.{World, Context}
use blockchain_task_server.SchedulerJob.ErrorHandler.{error_handler}
use blockchain_task_server.SchedulerJob.Exclusion.{ticks}
use blockchain_task_server.SchedulerJob.Machine.{
  Reaches, Steps, Steps-IsPreorder, stays, ticks_refine,
}
use blockchain_task_server.Template.{Local, on_env, on_notes}
use blockchain_task_server.Template.Atomic.{Moved, after_read_of}
use blockchain_task_server.Template.Machine.{Moved-Reaches, LocalSteps, LocalSteps-IsPreorder}
use blockchain_task_server.PriceJob.Params.{PriceParam, zero_big}
use blockchain_task_server.PriceJob.Units.{IsFit, IsBulk, bulk_update_fits}
use blockchain_task_server.PriceJob.{
  PriceContext, bulk_update, refresh_chunk, refresh_chain, refresh, attempt, run,
}

module _ {S T B K : Type 0} (p : Platform PriceParam S T) (lib : BigNumberLib B) (lodash : Lodash)
    (c : PriceContext S K) (lawful : IsLawful p)
    (zero-IsFit : IsFit p lib lodash c (lib.to_string (zero_big lib))) (id : String) where
  -- The two abstract methods only read.
  pub record IsReader : Type 0 where
    pub tokens_read : Keeps (SameData p) c.get_tokens
    pub crawl_reads :
        (chain_id : ℕ) (tokens : List K)
        → Keeps (SameData p) (c.crawl_token_supply_and_price chain_id tokens)

  -- The updates for what one call of `crawlTokenSupplyAndPrice` has returned, all of them.
  abbrev pub IsChunk : List (Write PriceParam) → Type 0
  IsChunk ws =
      (chain_id : ℕ) × (tokens : List K) × (u : S) × (params : List PriceParam)
      × ((c.crawl_token_supply_and_price chain_id tokens u).0 ≡ ok params)
      × IsBulk p lib lodash c params ws

  abbrev PriceSteps : S → S → Type 0
  PriceSteps = Steps p lawful id IsChunk

  abbrev JobSteps : Local S LogValue → Local S LogValue → Type 0
  JobSteps = LocalSteps p lawful id IsChunk

  module _ (reader : IsReader) where
    Moved-IsChunk :
        (chain_id : ℕ) (tokens : List K) (u : S) (params : List PriceParam) (a b : T)
        → (c.crawl_token_supply_and_price chain_id tokens u).0 ≡ ok params
        → Moved p lawful (IsBulk p lib lodash c params) a b
        → Moved p lawful IsChunk a b
    Moved-IsChunk chain_id tokens u params a b e (inl same) = inl same
    Moved-IsChunk chain_id tokens u params a b e (inr (ws, bulk, h)) =
        inr (ws, (chain_id, tokens, u, params, e, bulk), h)

    refresh_chunk-Steps :
        (chain_id : ℕ) (tokens : List K)
        → Keeps PriceSteps (refresh_chunk p lib lodash c chain_id tokens)
    unfolding refresh_chunk
    refresh_chunk-Steps chain_id tokens s = Moved-Reaches p lawful id IsChunk _ _ (
        after_read_of p lawful IsChunk (λ u. u) s (c.crawl_token_supply_and_price chain_id tokens s)
          (bulk_update p lib lodash c) (reader.crawl_reads chain_id tokens s).0
          λ params u e.
            Moved-IsChunk chain_id tokens s params _ _ e
              (bulk_update_fits p lib lodash c lawful zero-IsFit params u))

    refresh-Steps : (tokens : List K) → Keeps PriceSteps (refresh p lib lodash c tokens)
    unfolding refresh refresh_chain
    refresh-Steps tokens =
        for_each-Keeps PriceSteps (Steps-IsPreorder p lawful id IsChunk)
          (refresh_chain p lib lodash c) (c.group_by_chain_id tokens)
          λ (chain_id, group).
            for_each-Keeps PriceSteps (Steps-IsPreorder p lawful id IsChunk)
              (refresh_chunk p lib lodash c chain_id) (lodash.chunk group 100)
              (refresh_chunk-Steps chain_id)

    attempt-Steps : Keeps JobSteps (attempt p lib lodash c)
    unfolding attempt
    attempt-Steps =
        bind-Keeps JobSteps (LocalSteps-IsPreorder p lawful id IsChunk) (on_env c.get_tokens)
          (λ tokens. on_notes (λ _. LogValue.number (length tokens)) >>= λ _.
            on_env (refresh p lib lodash c tokens))
          (λ l. stays _ _ (sym (reader.tokens_read l.env).0))
          λ tokens.
            bind-Keeps JobSteps (LocalSteps-IsPreorder p lawful id IsChunk)
              (on_notes (λ _. LogValue.number (length tokens)))
              (λ _. on_env (refresh p lib lodash c tokens)) (λ l. stays _ _ refl)
              λ _ l. refresh-Steps tokens l.env

    -- If the abstract methods only read and zero fits into the columns, then the tables behind any number of
    -- ticks of a price job are reached by setting flags of its scheduler, and by the updates for what one
    -- call of `crawlTokenSupplyAndPrice` has returned, all of them together, each by its values where these
    -- fit and by zero where not.
    pub price_ticks_refine :
        (context : Context) (times : List (ℕ × ℕ)) (w : World S)
        → Reaches p lawful id IsChunk
            (p.committed w.env)
            (p.committed (ticks p id context (run p lib lodash c) times w).env)
    unfolding run
    price_ticks_refine context times w =
        ticks_refine p lawful id IsChunk context (run p lib lodash c)
          (λ v.
            try_catch-Keeps JobSteps (LocalSteps-IsPreorder p lawful id IsChunk)
              (attempt p lib lodash c) (λ e. from_result (error_handler e)) attempt-Steps
              (λ e l. stays _ _ refl)
              (record { env = v.env; runner = false; notes = LogValue.null }))
          times w
