-- ===== src/LendingJob/Unlisted.antt =====
-- Markets that are not listed and have no row.
use blockchain_task_server.Common.{String, Bool, false, Option, none, some, ◌≡◌, refl, ap}
use blockchain_task_server.Effects.{
  Result, ok, err, pure, recover, and_then, from_result, ◌>>=◌, ◌>>◌,
}
use blockchain_task_server.Platform.{Platform}
use blockchain_task_server.BigNumber.{BigNumberLib}
use blockchain_task_server.SchedulerLogger.{LogValue}
use blockchain_task_server.Template.{Local, on_env}
use blockchain_task_server.LendingJob.Markets.{
  LendingToken, MarketInfo, Lending, LendingWrite, LendingContext, lending_values,
}
use blockchain_task_server.LendingJob.{
  register_lending_market, market_liquidity, refresh_lending_market, ensure_market, market_writes,
  store_market, visit_market, visit_token, market_try, market_catch, market_finally, crawl_market,
}

-- The same service, where every market is listed or none is.
abbrev pub with_listed : {S B : Type 0} → Bool → LendingContext S B → LendingContext S B
with_listed listed c = record c {
  get_lending_market_infos = λ market.
      c.get_lending_market_infos market >>= λ info. pure (record info { is_listed = listed });
}

module _ {S T B : Type 0} (p : Platform LendingWrite S T) (lib : BigNumberLib B)
    (c : LendingContext S B) (listed : Bool) where
  after_row :
      (token : LendingToken) (market : String) (info : MarketInfo)
      (x : Result (Option Lending) × Local S LogValue)
      → x.0 ≡ ok none
      → and_then x.0
          (visit_market p lib
            (with_listed listed c)
            token
            market
            (record info { is_listed = listed }))
          x.1
        ≡ and_then x.0 (visit_market p lib c token market info) x.1
  unfolding visit_market store_market market_writes ensure_market register_lending_market
      refresh_lending_market market_liquidity lending_values
  after_row token market info (ok none, l) e = refl
  after_row token market info (ok (some r), l) e = cc
  after_row token market info (err z, l) e = cc

  module _
      (unknown : (token : LendingToken) (market : String) (s : S)
        → (c.find_lending token market s).0 ≡ ok none) where
    after_token :
        (market : String) (info : MarketInfo) (x : Result (Option LendingToken) × Local S LogValue)
        → and_then x.0
            (visit_token p lib (with_listed listed c) market (record info { is_listed = listed }))
            x.1
          ≡ and_then x.0 (visit_token p lib c market info) x.1
    unfolding visit_token
    after_token market info (ok none, l) = refl
    after_token market info (ok (some token), l) =
        after_row token market info (on_env (c.find_lending token market) l)
          (unknown token market l.env)
    after_token market info (err z, l) = refl

    after_info :
        (market : String) (l : Local S LogValue) (x : Result MarketInfo × S)
        → (let y = and_then x.0 (λ info. pure (record info { is_listed = listed })) x.1 in
            and_then y.0
              (λ info.
                on_env (c.find_token info.underlying)
                >>= visit_token p lib (with_listed listed c) market info)
              (record l { env = y.1 }))
          ≡ and_then x.0
              (λ info. on_env (c.find_token info.underlying) >>= visit_token p lib c market info)
              (record l { env = x.1 })
    after_info market l (ok info, s) =
        after_token market info (on_env (c.find_token info.underlying) (record l { env = s }))
    after_info market l (err z, s) = refl

    market_try-with_listed :
        (market : String) (l : Local S LogValue)
        → market_try p lib (with_listed listed c) market l ≡ market_try p lib c market l
    unfolding market_try
    market_try-with_listed market l = after_info market l (c.get_lending_market_infos market l.env)

    -- If no market has a row yet, then the work on a market does not depend on whether it is listed: a
    -- market that is not listed is registered like the others.
    pub crawl_market-with_listed :
        (market : String) (l : Local S LogValue)
        → crawl_market p lib (with_listed listed c) market l ≡ crawl_market p lib c market l
    unfolding crawl_market market_catch market_finally
    crawl_market-with_listed market l =
        ap
          (λ x.
            let y = recover x.0 (market_catch p lib c) x.1 in
            (market_finally p lib c >> from_result y.0) y.1)
          (market_try-with_listed market (record l { runner = false }))
