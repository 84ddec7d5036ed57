-- ===== src/LendingJob/Isolation.antt =====
-- The loop over the markets, where the work on a market may throw.
use blockchain_task_server.Common.{String, List, ◌≡◌, arith}
use blockchain_task_server.Exceptions.{Thrown}
use blockchain_task_server.Effects.{ok, for_each}
use blockchain_task_server.Effects.Returns.{Returns, try-Returns, all_calls, for_each-all_calls}
use blockchain_task_server.Platform.{Platform}
use blockchain_task_server.BigNumber.{BigNumberLib}
use blockchain_task_server.SchedulerLogger.{LogValue}
use blockchain_task_server.Template.{Local}
use blockchain_task_server.LendingJob.Markets.{LendingWrite, LendingContext}
use blockchain_task_server.LendingJob.{market_try, market_catch, market_finally, crawl_market}

module _ {S T B : Type 0} (p : Platform LendingWrite S T) (lib : BigNumberLib B)
    (c : LendingContext S B) where
  module _ (rollback_returns : (s : S) → (p.rollback s).0 ≡ ok tt)
      (release_returns : (s : S) → (p.release s).0 ≡ ok tt) where
    market_catch-Returns : (e : Thrown) → Returns (market_catch p lib c e)
    unfolding market_catch
    market_catch-Returns e l = ground (arith, rollback_returns l.env)

    market_finally-Returns : Returns (market_finally p lib c)
    unfolding market_finally
    market_finally-Returns l = ground (arith, release_returns l.env)

    crawl_market-Returns : (market : String) → Returns (crawl_market p lib c market)
    unfolding crawl_market
    crawl_market-Returns market l =
        try-Returns (market_try p lib c market) (market_catch p lib c) (market_finally p lib c)
          market_catch-Returns market_finally-Returns _

    -- If `rollbackTransaction` and `release` always return, the loop over the markets returns and has worked
    -- on every market in order, whatever the work on each one throws inside.
    pub for_each-crawl_market :
        (markets : List String) (l : Local S LogValue)
        → for_each (crawl_market p lib c) markets l
          ≡ (ok tt, all_calls (crawl_market p lib c) markets l)
    for_each-crawl_market = for_each-all_calls (crawl_market p lib c) crawl_market-Returns
