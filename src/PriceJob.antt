-- ===== src/PriceJob.antt =====
-- src/scheduler-job/template/price.template.ts: a job that reads the supplies and the prices of tokens, some
-- at a time, and writes them in a transaction.
pub mod Params
pub mod SingleAmm
pub mod MultiAmm
pub mod ChainLink
pub mod Aligned
pub mod Highest
pub mod Units
pub mod Refinement
use blockchain_task_server.Common.{ℕ, String, Bool, not, ◌||◌, List, [], ◌∷◌, length, if◌then◌else◌}
use blockchain_task_server.Exceptions.{Thrown}
use blockchain_task_server.Effects.{
  Action, from_result, gets, try_catch, try_finally, ◌>>=◌, ◌>>◌, when, for_each,
}
use blockchain_task_server.Lodash.{Lodash}
use blockchain_task_server.Platform.{Platform, other}
use blockchain_task_server.BigNumber.{BigNumberLib, text, is_greater_than}
use blockchain_task_server.SchedulerLogger.{LogData, LogValue}
use blockchain_task_server.SchedulerJob.{World}
use blockchain_task_server.SchedulerJob.ErrorHandler.{error_handler}
use blockchain_task_server.Template.{Local, on_env, on_notes, run_with}
use blockchain_task_server.PriceJob.Params.{PriceParam, zero_big}

-- The two abstract methods on tokens of a type, `_.groupBy` by the chain ids with its keys in their order, and whether `Number`
-- of a text is finite.
pub record PriceContext (S K : Type 0) : Type 0 where
  pub get_tokens : Action S (List K)
  pub crawl_token_supply_and_price : ℕ → List K → Action S (List PriceParam)
  pub group_by_chain_id : List K → List (ℕ × List K)
  pub is_finite : String → Bool

-- `max` in `bulkUpdate`
abbrev pub max_value : String
max_value = "100000000000000000000000000000000000"

abbrev entries : LogValue → LogData
entries total = ("total", total) ∷ []

module _ {S T B K : Type 0} (p : Platform PriceParam S T) (lib : BigNumberLib B) (lodash : Lodash)
    (c : PriceContext S K) where
  -- A value that is neither too great nor infinite, or zero.
  unfoldable pub bounded : String → String
  unfolding is_greater_than
  bounded value =
      if is_greater_than lib (text value) (text max_value) || not (c.is_finite value)
      then lib.to_string (zero_big lib)
      else value

  unfoldable pub update_token : PriceParam → Action S (Unit {0})
  unfolding bounded
  update_token param = p.write_in (
      other (record {
        id = param.id;
        price_value = bounded param.price_value;
        total_supply = bounded param.total_supply;
      }))

  -- The `catch` and the `finally` block of `bulkUpdate`.
  unfoldable pub bulk_catch : Thrown → Action S (Unit {0})
  unfolding error_handler
  bulk_catch e = do
    s ← gets (λ (s : S). s)
    when (p.is_transaction_active s) p.rollback
    from_result (error_handler e)

  unfoldable pub bulk_finally : Action S (Unit {0})
  bulk_finally = do s ← gets (λ (s : S). s); when (not (p.is_released s)) p.release

  -- The calls that the `try` block begins behind are outside of it.
  unfoldable pub bulk_update : List PriceParam → Action S (Unit {0})
  unfolding update_token bulk_catch bulk_finally for_each
  bulk_update params =
      p.connect
      >> (p.start_transaction
          >> try_finally (try_catch (for_each update_token params >> p.commit) bulk_catch)
              bulk_finally)

  unfoldable pub refresh_chunk : ℕ → List K → Action S (Unit {0})
  unfolding bulk_update
  refresh_chunk chain_id tokens = c.crawl_token_supply_and_price chain_id tokens >>= bulk_update

  unfoldable pub refresh_chain : ℕ × List K → Action S (Unit {0})
  unfolding refresh_chunk for_each
  refresh_chain (chain_id, tokens) = for_each (refresh_chunk chain_id) (lodash.chunk tokens 100)

  unfoldable pub refresh : List K → Action S (Unit {0})
  unfolding refresh_chain for_each
  refresh tokens = for_each refresh_chain (c.group_by_chain_id tokens)

  unfoldable pub attempt : Action (Local S LogValue) (Unit {0})
  unfolding refresh
  attempt = do
    tokens ← on_env c.get_tokens
    on_notes (λ _. LogValue.number (length tokens))
    on_env (refresh tokens)

  unfoldable pub run : Action (World S) (Unit {0})
  unfolding attempt
  run = run_with entries LogValue.null (try_catch attempt λ e. from_result (error_handler e))
