-- ===== src/Tests/Lendings.antt =====
-- Runs of the lending job over a platform in memory.
use blockchain_task_server.Common.{ℕ, true, false, none, some, [], ◌∷◌, ◌≡◌, refl}
use blockchain_task_server.Effects.{pure}
use blockchain_task_server.Platform.{Platform}
use blockchain_task_server.Platform.Memory.{Memory, Tables, memory, memory-IsLawful}
use blockchain_task_server.BigNumber.{number}
use blockchain_task_server.SchedulerLogger.{LogValue}
use blockchain_task_server.SchedulerJob.Exclusion.{ticks}
use blockchain_task_server.SchedulerJob.Machine.{Reaches}
use blockchain_task_server.Template.{Local}
use blockchain_task_server.LendingJob.Markets.{
  LendingToken, MarketInfo, LendingWrite, LendingContext, create_lending, update_lending,
  lending_values,
}
use blockchain_task_server.LendingJob.{crawl_market, run}
use blockchain_task_server.LendingJob.Units.{IsReader, IsVisit}
use blockchain_task_server.LendingJob.Refinement.{lending_ticks_refine}
use blockchain_task_server.LendingJob.Unlisted.{with_listed, crawl_market-with_listed}
use blockchain_task_server.Tests.Samples.{tallies, memory_state, world}
use blockchain_task_server.Tests.Samples.{context as job_context}

abbrev pub platform : Platform LendingWrite (Memory LendingWrite) (Tables LendingWrite)
platform = memory LendingWrite

abbrev token : LendingToken
token = record { address = "t"; decimals = 0; price_value = "||" }

abbrev info : MarketInfo
info = record {
  underlying = "t";
  supply_rate_per_block = 0;
  borrow_rate_per_block = 0;
  total_borrows = 0;
  total_reserves = 0;
  reserve_factor_mantissa = 0;
  is_listed = false;
  collateral_factor_mantissa = 0;
}

-- Two markets that are not listed, and have no row.
abbrev pub context : LendingContext (Memory LendingWrite) ℕ
context = record {
  get_lending_all_markets = pure ("m" ∷ "n" ∷ []);
  get_lending_market_infos = λ market. pure info;
  get_balance = λ market. pure 5;
  get_safe_erc20_balance_of = λ address market. pure 3;
  block_time_second = number 86400;
  find_token = λ address. pure (some token);
  find_lending = λ t market. pure none;
}

pub context-IsReader : IsReader platform (memory-IsLawful LendingWrite) context
context-IsReader = record {
  markets_reads = λ s. (refl, refl);
  infos_reads = λ market s. (refl, refl);
  balance_reads = λ market s. (refl, refl);
  erc20_reads = λ t market s. (refl, refl);
  token_reads = λ address s. (refl, refl);
  lending_reads = λ t market s. (refl, refl);
}

abbrev pub local : Local (Memory LendingWrite) LogValue
local = record { env = memory_state; runner = false; notes = LogValue.null }

-- The market is registered.
crawl_market_registers :
    (crawl_market platform tallies context "m" local).1.env.tables.others
    ≡ create_lending token "m"
      ∷ update_lending token "m" (lending_values tallies context token info 3)
      ∷ []
unfolding crawl_market
crawl_market_registers = refl

lending_ticks_refine_example :
    Reaches platform
      (memory-IsLawful LendingWrite)
      "a"
      IsVisit
      memory_state.tables
      (ticks platform "a" job_context
        (run platform tallies context)
        ((5, 9) ∷ (65, 66) ∷ [])
        world).env.tables
unfolding world
lending_ticks_refine_example =
    lending_ticks_refine platform (memory-IsLawful LendingWrite) context context-IsReader tallies
      "a" job_context ((5, 9) ∷ (65, 66) ∷ []) world

crawl_market-with_listed_example :
    crawl_market platform tallies (with_listed true context) "m" local
    ≡ crawl_market platform tallies context "m" local
crawl_market-with_listed_example =
    crawl_market-with_listed platform tallies context true (λ t market s. refl) "m" local
