-- ===== src/LendingJob.antt =====
-- src/scheduler-job/venus-job/venus-job.bsc.lending.service.ts: the job that registers the markets of a
-- lending protocol and refreshes their values, each in a transaction of its own.
pub mod Markets
pub mod Units
pub mod Refinement
pub mod Isolation
pub mod Unlisted
use blockchain_task_server.Common.{
  ℕ, String, Bool, true, false, not, ◌&&◌, Option, none, some, List, [], ◌∷◌, length, if◌then◌else◌,
}
use blockchain_task_server.Exceptions.{Thrown}
use blockchain_task_server.Effects.{
  Action, pure, from_result, gets, modify, try_catch, try_finally, ◌>>=◌, ◌>>◌, when, for_each,
}
use blockchain_task_server.Platform.{Platform, other}
use blockchain_task_server.BigNumber.{BigNumberLib}
use blockchain_task_server.SchedulerLogger.{LogData, LogValue}
use blockchain_task_server.SchedulerJob.{World}
use blockchain_task_server.SchedulerJob.ErrorHandler.{error_handler}
use blockchain_task_server.Template.{Local, on_env, on_notes, run_with, in_transaction}
use blockchain_task_server.Template.Pair.Addresses.{is_zero_address}
use blockchain_task_server.LendingJob.Markets.{
  LendingToken, MarketInfo, Lending, LendingWrite, create_lending, update_lending, disable_lending,
  LendingContext, lending_values,
}

abbrev entries : LogValue → LogData
entries total = ("total", total) ∷ []

module _ {S T B : Type 0} (p : Platform LendingWrite S T) (lib : BigNumberLib B)
    (c : LendingContext S B) where
  unfoldable pub register_lending_market : Option LendingToken → String → Action S Bool
  register_lending_market none market = pure false
  register_lending_market (some token) market =
      p.write_in (other (create_lending token market)) >> pure true

  unfoldable pub market_liquidity : LendingToken → String → Action S ℕ
  unfolding is_zero_address
  market_liquidity token market =
      if is_zero_address token.address
      then c.get_balance market
      else c.get_safe_erc20_balance_of token.address market

  unfoldable pub refresh_lending_market : LendingToken → String → MarketInfo → Action S (Unit {0})
  unfolding market_liquidity lending_values
  refresh_lending_market token market info = do
    liquidity ← market_liquidity token market
    p.write_in (other (update_lending token market (lending_values lib c token info liquidity)))

  -- The registration of a market that has no row yet.
  unfoldable pub ensure_market : LendingToken → String → Option Lending → Action S Bool
  unfolding register_lending_market
  ensure_market token market none = register_lending_market (some token) market
  ensure_market token market (some lending) = pure true

  -- The writes of the transaction.
  unfoldable pub market_writes :
      LendingToken → String → MarketInfo → Option Lending → Action S (Unit {0})
  unfolding ensure_market refresh_lending_market
  market_writes token market info lending = do
    initialized ← ensure_market token market lending
    when initialized (refresh_lending_market token market info)

  -- The calls from the query runner's creation to its `commitTransaction`.
  unfoldable pub store_market :
      LendingToken → String → MarketInfo → Option Lending → Action (Local S LogValue) (Unit {0})
  unfolding in_transaction market_writes
  store_market token market info lending =
      modify (λ l. record l { runner = true })
      >> on_env (in_transaction p (market_writes token market info lending))

  -- The rest of the `try` block of a market behind the look for its row: only a row keeps a market that
  -- is not listed from the transaction.
  unfoldable pub visit_market :
      LendingToken → String → MarketInfo → Option Lending → Action (Local S LogValue) (Unit {0})
  unfolding store_market
  visit_market token market info none = store_market token market info none
  visit_market token market info (some lending) =
      if info.is_listed
      then store_market token market info (some lending)
      else on_env (p.write (other (disable_lending token market)))

  -- The rest behind the look for the token of the market.
  unfoldable pub visit_token :
      String → MarketInfo → Option LendingToken → Action (Local S LogValue) (Unit {0})
  unfolding visit_market
  visit_token market info none = pure tt
  visit_token market info (some token) =
      on_env (c.find_lending token market) >>= visit_market token market info

  unfoldable pub market_try : String → Action (Local S LogValue) (Unit {0})
  unfolding visit_token
  market_try market = do
    info ← on_env (c.get_lending_market_infos market)
    token ← on_env (c.find_token info.underlying)
    visit_token market info token

  -- The `catch` and the `finally` block of a market.
  unfoldable pub market_catch : Thrown → Action (Local S LogValue) (Unit {0})
  market_catch e = do
    l ← gets (λ (l : Local S LogValue). l)
    when (l.runner && p.is_transaction_active l.env) (on_env p.rollback)

  unfoldable pub market_finally : Action (Local S LogValue) (Unit {0})
  market_finally = do
    l ← gets (λ (l : Local S LogValue). l)
    when (l.runner && not (p.is_released l.env)) (on_env p.release)

  -- An iteration of the loop.
  unfoldable pub crawl_market : String → Action (Local S LogValue) (Unit {0})
  unfolding market_try market_catch market_finally
  crawl_market market =
      modify (λ l. record l { runner = false })
      >> try_finally (try_catch (market_try market) market_catch) market_finally

  unfoldable pub attempt : Action (Local S LogValue) (Unit {0})
  unfolding crawl_market for_each
  attempt = do
    markets ← on_env c.get_lending_all_markets
    on_notes (λ _. LogValue.number (length markets))
    for_each crawl_market markets

  unfoldable pub run : Action (World S) (Unit {0})
  unfolding attempt
  run = run_with entries LogValue.null (try_catch attempt λ e. from_result (error_handler e))
