-- ===== src/Defi/Venus/Job.antt =====
-- The service as the context of the lending job: scheduler-job/venus-job/venus-job.bsc.lending.service.ts
-- destructures the info of a market, and its `market` with it.
use blockchain_task_server.Common.{
  ℕ, String, false, ◌∷◌, Option, none, some, List, [], ◌≡◌, refl, sym, ap, ◌∙◌,
}
use blockchain_task_server.Effects.{Result, ok, err, from_result, ◌>>=◌, and_then}
use blockchain_task_server.Effects.Rules.{Keeps}
use blockchain_task_server.Lodash.{Lodash}
use blockchain_task_server.BigNumber.{BigNumberLib}
use blockchain_task_server.Exceptions.{Thrown}
use blockchain_task_server.Contracts.{Call, Reply, Answers, valid_result, decode_or}
use blockchain_task_server.Contracts.Results.{ok-injective}
use blockchain_task_server.Defi.Venus.Infos.{get_lending_market_infos-IsAnswered}
use blockchain_task_server.SchedulerLogger.{LogValue}
use blockchain_task_server.SchedulerJob.{World, Context}
use blockchain_task_server.SchedulerJob.Exclusion.{ticks}
use blockchain_task_server.SchedulerJob.Machine.{Reaches}
use blockchain_task_server.Template.{Local}
use blockchain_task_server.LendingJob.{run, crawl_market, market_try, market_catch, market_finally}
use blockchain_task_server.LendingJob.Refinement.{lending_ticks_refine}
use blockchain_task_server.Platform.{Platform, IsLawful, SameData}
use blockchain_task_server.Template.Pair.Data.{type_error}
use blockchain_task_server.LendingJob.Markets.{MarketInfo, LendingWrite, LendingContext}
use blockchain_task_server.LendingJob.Units.{IsReader, IsVisit}
use blockchain_task_server.Defi.Venus.{
  VenusContext, VenusInfo, ListedMarket, listed_of, market_info, market_calls,
  get_lending_market_infos, get_lending_all_markets,
}

-- The destructuring of a result, which throws where `market` is null.
unfoldable pub with_market : VenusInfo → Option ListedMarket → Result MarketInfo
with_market info none = err type_error
with_market info (some market) = ok (record {
  underlying = info.underlying;
  supply_rate_per_block = info.supply_rate_per_block;
  borrow_rate_per_block = info.borrow_rate_per_block;
  total_borrows = info.total_borrows;
  total_reserves = info.total_reserves;
  reserve_factor_mantissa = info.reserve_factor_mantissa;
  is_listed = market.is_listed;
  collateral_factor_mantissa = market.collateral_factor_mantissa;
})

unfoldable pub destructured : VenusInfo → Result MarketInfo
unfolding with_market
destructured info = with_market info info.market

module _ {S P B : Type 0} (lib : BigNumberLib B) (lodash : Lodash) (c : VenusContext S P)
    (others : LendingContext S B) where
  -- The context of the job: what it asks of the service is the service's, the other calls are as they are.
  abbrev pub venus_context : LendingContext S B
  venus_context = record others {
    get_lending_all_markets = get_lending_all_markets lib lodash c;
    get_lending_market_infos = λ market.
        get_lending_market_infos lib lodash c market >>= λ info. from_result (destructured info);
  }

  module _ {T : Type 0} (p : Platform LendingWrite S T) (lawful : IsLawful p)
      (aggregate_reads : (calls : List Call) → Keeps (SameData p) (c.aggregate calls))
      (markets_reads : Keeps (SameData p) c.all_markets) (reader : IsReader p lawful others) where
    after_info :
        (s t : S) (r : Result VenusInfo)
        → SameData p s t
        → SameData p s (and_then r (λ info. from_result (destructured info)) t).1
    after_info s t (ok info) same = same
    after_info s t (err z) same = same

    after_replies :
        (s : S) (x : Result (List Reply) × S)
        → SameData p s x.1
        → SameData p s
            (and_then
              (and_then x.0 (λ replies. from_result (market_info lib lodash c replies)) x.1).0
              (λ info. from_result (destructured info))
              (and_then x.0 (λ replies. from_result (market_info lib lodash c replies)) x.1).1).1
    after_replies s (ok replies, t) same = after_info s t (market_info lib lodash c replies) same
    after_replies s (err z, t) same = same

    infos_reads :
        (market : String) → Keeps (SameData p) (venus_context.get_lending_market_infos market)
    unfolding get_lending_market_infos
    infos_reads market s =
        after_replies s (c.aggregate (market_calls lib lodash c market) s) (aggregate_reads _ s)

    pub venus_context-IsReader : IsReader p lawful venus_context
    unfolding get_lending_all_markets
    venus_context-IsReader = record {
      markets_reads = markets_reads;
      infos_reads = infos_reads;
      balance_reads = reader.balance_reads;
      erc20_reads = reader.erc20_reads;
      token_reads = reader.token_reads;
      lending_reads = reader.lending_reads;
    }

    -- If the batch call, the call of the markets and the other calls of the job's context only read, then
    -- the tables behind any number of ticks of the lending job on the Venus service are reached by setting
    -- flags of its scheduler, and by the writes of markets, those for one market together.
    pub venus_ticks_refine :
        (id : String) (context : Context) (times : List (ℕ × ℕ)) (w : World S)
        → Reaches p lawful id IsVisit
            (p.committed w.env)
            (p.committed (ticks p id context (run p lib venus_context) times w).env)
    venus_ticks_refine id =
        lending_ticks_refine p lawful venus_context venus_context-IsReader lib id

    module _ (answer : S → Call → Reply) (answers : Answers c.aggregate answer) where
      infos_throw :
          (market : String) (s : S) (x : Result VenusInfo × S)
          → get_lending_market_infos lib lodash c market s ≡ x
          → valid_result (answer s (c.lending_address, c.encode_lending "markets" (market ∷ [])))
            ≡ false
          → (z : Thrown) × (and_then x.0 (λ info. from_result (destructured info)) x.1
              ≡ (err z, x.1))
      unfolding destructured listed_of decode_or
      infos_throw market s (ok info, t) e unanswered =
          let answered =
            get_lending_market_infos-IsAnswered lib lodash c answer market s t info answers e in
          let null : none ≡ info.market =
            ok-injective none info.market (sym (rw unanswered refl) ∙ answered.market_answered) in
          (type_error, rw (sym null) refl)
      infos_throw market s (err z, t) e unanswered = (z, refl)

      crawl_market-throws :
          (market : String) (l : Local S LogValue) (z : Thrown) (t : S)
          → venus_context.get_lending_market_infos market l.env ≡ (err z, t)
          → (crawl_market p lib venus_context market l).1.env ≡ t
      unfolding crawl_market market_try market_catch market_finally
      crawl_market-throws market l z t e = rw e refl

      -- If the batch call only reads, and the call of `markets` for a market fails or returns nothing, then
      -- the work on this market leaves the tables as they are, whatever the other calls answer.
      pub crawl_market-unanswered :
          (market : String) (l : Local S LogValue)
          → valid_result
              (answer l.env (c.lending_address, c.encode_lending "markets" (market ∷ [])))
            ≡ false
          → p.committed (crawl_market p lib venus_context market l).1.env ≡ p.committed l.env
      crawl_market-unanswered market l unanswered =
          let x = get_lending_market_infos lib lodash c market l.env in
          let (z, e) = infos_throw market l.env x refl unanswered in
          ap p.committed (crawl_market-throws market l z x.1 e)
          ∙ (ap (λ y. p.committed y.1) (sym e) ∙ (infos_reads market l.env).0)
