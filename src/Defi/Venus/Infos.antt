-- ===== src/Defi/Venus/Infos.antt =====
-- The info of a market, against the answers to the calls for it.
use blockchain_task_server.Common.{ℕ, String, List, [], ◌∷◌, ◌≡◌, refl, sym, ap, ◌∙◌, map}
use blockchain_task_server.Effects.{Result, ok, err, and_then, from_result}
use blockchain_task_server.Lodash.{Lodash}
use blockchain_task_server.BigNumber.{BigNumberLib}
use blockchain_task_server.Template.Pair.Data.{zero_address}
use blockchain_task_server.Contracts.{Call, Reply, Answers, decode_or}
use blockchain_task_server.Contracts.Results.{then_result-ok, ok-injective}
use blockchain_task_server.Defi.Venus.{
  VenusContext, VenusInfo, number_of, listed_of, market_calls, market_info, v_token_call,
  get_lending_market_infos,
}

module _ {S P B : Type 0} (lib : BigNumberLib B) (lodash : Lodash) (c : VenusContext S P) where
  abbrev NumberIs : (Call → Reply) → String → String → ℕ → Type 0
  NumberIs reply market name n =
      number_of lib lodash c name (reply (v_token_call lib lodash c market name)) ≡ ok n

  -- Each field of an info is the decoded reply to the call of its own name.
  pub record IsAnswered (reply : Call → Reply) (market : String) (info : VenusInfo) : Type 0 where
    pub underlying_answered :
        decode_or
          (c.decode_address "underlying")
          zero_address
          (reply (v_token_call lib lodash c market "underlying"))
        ≡ ok info.underlying
    pub supply_answered : NumberIs reply market "supplyRatePerBlock" info.supply_rate_per_block
    pub borrow_answered : NumberIs reply market "borrowRatePerBlock" info.borrow_rate_per_block
    pub decimals_answered : NumberIs reply market "decimals" info.decimals
    pub borrows_answered : NumberIs reply market "totalBorrows" info.total_borrows
    pub reserves_answered : NumberIs reply market "totalReserves" info.total_reserves
    pub factor_answered : NumberIs reply market "reserveFactorMantissa" info.reserve_factor_mantissa
    pub market_answered :
        listed_of lib lodash c (reply (c.lending_address, c.encode_lending "markets" (market ∷ [])))
        ≡ ok info.market

  market_info-IsAnswered :
      (reply : Call → Reply) (market : String) (info : VenusInfo)
      → market_info lib lodash c (map reply (market_calls lib lodash c market)) ≡ ok info
      → IsAnswered reply market info
  unfolding market_info market_calls
  market_info-IsAnswered reply market info e =
      let (a0, e0, f0) = then_result-ok _ _ info e in
      let (a1, e1, f1) = then_result-ok _ _ info f0 in
      let (a2, e2, f2) = then_result-ok _ _ info f1 in
      let (a3, e3, f3) = then_result-ok _ _ info f2 in
      let (a4, e4, f4) = then_result-ok _ _ info f3 in
      let (a5, e5, f5) = then_result-ok _ _ info f4 in
      let (a6, e6, f6) = then_result-ok _ _ info f5 in
      let (a7, e7, f7) = then_result-ok _ _ info f6 in
      let same =
        ok-injective
          (record {
            underlying = a0;
            supply_rate_per_block = a1;
            borrow_rate_per_block = a2;
            decimals = a3;
            total_borrows = a4;
            total_reserves = a5;
            reserve_factor_mantissa = a6;
            market = a7;
          })
          info f7 in
      record {
        underlying_answered = e0 ∙ ap (λ (v : VenusInfo). ok v.underlying) same;
        supply_answered = e1 ∙ ap (λ (v : VenusInfo). ok v.supply_rate_per_block) same;
        borrow_answered = e2 ∙ ap (λ (v : VenusInfo). ok v.borrow_rate_per_block) same;
        decimals_answered = e3 ∙ ap (λ (v : VenusInfo). ok v.decimals) same;
        borrows_answered = e4 ∙ ap (λ (v : VenusInfo). ok v.total_borrows) same;
        reserves_answered = e5 ∙ ap (λ (v : VenusInfo). ok v.total_reserves) same;
        factor_answered = e6 ∙ ap (λ (v : VenusInfo). ok v.reserve_factor_mantissa) same;
        market_answered = e7 ∙ ap (λ (v : VenusInfo). ok v.market) same;
      }

  after_replies :
      (answer : S → Call → Reply) (market : String) (s t : S) (info : VenusInfo)
      (x : Result (List Reply) × S)
      → ((replies : List Reply)
          → x.0 ≡ ok replies
          → replies ≡ map (answer s) (market_calls lib lodash c market))
      → and_then x.0 (λ replies. from_result (market_info lib lodash c replies)) x.1 ≡ (ok info, t)
      → IsAnswered (answer s) market info
  after_replies answer market s t info (ok replies, u) h e =
      market_info-IsAnswered (answer s) market info
        (sym (ap (market_info lib lodash c) (h replies refl)) ∙ ap (λ x. x.0) e)
  after_replies answer market s t info (err z, u) h e = cc

  -- If `getLendingMarketInfos` returns, then each field of its result is the decoded reply to the call of
  -- the function of this name, its default where the call failed or returned nothing, and `market` is null
  -- where the call of `markets` did.
  pub get_lending_market_infos-IsAnswered :
      (answer : S → Call → Reply) (market : String) (s t : S) (info : VenusInfo)
      → Answers c.aggregate answer
      → get_lending_market_infos lib lodash c market s ≡ (ok info, t)
      → IsAnswered (answer s) market info
  unfolding get_lending_market_infos
  get_lending_market_infos-IsAnswered answer market s t info answers e =
      let calls = market_calls lib lodash c market in
      after_replies answer market s t info (c.aggregate calls s) (answers calls s) e
