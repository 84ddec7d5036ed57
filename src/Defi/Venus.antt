-- ===== src/Defi/Venus.antt =====
-- src/defi/venus/venus.bsc.service.ts
pub mod Aligned
pub mod Infos
pub mod Borrowed
pub mod Job
use blockchain_task_server.Common.{
  ℕ, String, Bool, not, ◌&&◌, Option, none, some, List, [], ◌∷◌, map, if◌then◌else◌,
}
use blockchain_task_server.Effects.{
  Result, ok, err, Action, pure, from_result, ◌>>=◌, collect, then_result,
}
use blockchain_task_server.Lodash.{Lodash}
use blockchain_task_server.Arrays.{flat}
use blockchain_task_server.BigNumber.{BigNumberLib, number, big, text, div, mul, to_fixed, is_zero}
use blockchain_task_server.BigNumber.Decimals.{divide_decimals}
use blockchain_task_server.Contracts.{Call, Reply, is_null_bytes, decode_or}
use blockchain_task_server.Template.Pair.Data.{type_error, zero_address}

-- What `markets` tells of a market.
pub record ListedMarket : Type 0 where
  pub is_listed : Bool
  pub collateral_factor_mantissa : ℕ
  pub is_venus : Bool

-- The result of `getLendingMarketInfos`; without a reply, `market` is null.
pub record VenusInfo : Type 0 where
  pub underlying : String
  pub supply_rate_per_block : ℕ
  pub borrow_rate_per_block : ℕ
  pub decimals : ℕ
  pub total_borrows : ℕ
  pub total_reserves : ℕ
  pub reserve_factor_mantissa : ℕ
  pub market : Option ListedMarket

-- The columns of a lending that the service reads, with its token's decimals.
pub record VenusLending : Type 0 where
  pub address : String
  pub decimals : ℕ

-- A lending with its `wallet`.
pub record WalletLending : Type 0 where
  pub lending : VenusLending
  pub supply_amount : String
  pub borrow_amount : String

-- What the service asks of the contracts and of the lending service. A function's name goes with its ABI:
-- `v_token` and `lending` encode and decode with the two ABIs of the service; a decoded number is the first
-- of the results. `P` is the type of the query.
pub record VenusContext (S P : Type 0) : Type 0 where
  pub lending_address : String
  pub aggregate : List Call → Action S (List Reply)
  pub all_markets : Action S (List String)
  pub assets_in : String → Action S (List String)
  pub encode_v_token : String → List String → String
  pub encode_lending : String → List String → String
  pub decode_address : String → String → Result String
  pub decode_number : String → String → Result ℕ
  pub decode_markets : String → Result ListedMarket
  -- The lendings of the protocol at one of the addresses, which the query selects.
  pub search_lendings : P → List String → Action S (Option (List VenusLending))

module _ {S P B : Type 0} (lib : BigNumberLib B) (lodash : Lodash) (c : VenusContext S P) where
  unfoldable pub get_lending_all_markets : Action S (List String)
  get_lending_all_markets = c.all_markets

  unfoldable pub get_wallet_lending_market : String → Action S (List String)
  get_wallet_lending_market = c.assets_in

  abbrev pub v_token_call : String → String → Call
  v_token_call market name = (market, c.encode_v_token name [])

  unfoldable pub market_calls : String → List Call
  market_calls market =
      v_token_call market "underlying"
      ∷ v_token_call market "supplyRatePerBlock"
      ∷ v_token_call market "borrowRatePerBlock"
      ∷ v_token_call market "decimals"
      ∷ v_token_call market "totalBorrows"
      ∷ v_token_call market "totalReserves"
      ∷ v_token_call market "reserveFactorMantissa"
      ∷ (c.lending_address, c.encode_lending "markets" (market ∷ []))
      ∷ []

  -- A number of a reply, or `ZERO`.
  unfoldable pub number_of : String → Reply → Result ℕ
  unfolding decode_or
  number_of name = decode_or (c.decode_number name) 0

  unfoldable pub listed_of : Reply → Result (Option ListedMarket)
  unfolding decode_or
  listed_of = decode_or (λ reply. then_result (c.decode_markets reply) (λ m. ok (some m))) none

  -- The returned object, on the eight replies, of which the destructuring throws where one is `undefined`.
  unfoldable pub market_info : List Reply → Result VenusInfo
  unfolding number_of listed_of decode_or
  market_info (r0 ∷ r1 ∷ r2 ∷ r3 ∷ r4 ∷ r5 ∷ r6 ∷ r7 ∷ rest) =
      then_result (decode_or (c.decode_address "underlying") zero_address r0) λ underlying.
        then_result (number_of "supplyRatePerBlock" r1) λ supply.
          then_result (number_of "borrowRatePerBlock" r2) λ borrow.
            then_result (number_of "decimals" r3) λ decimals.
              then_result (number_of "totalBorrows" r4) λ borrows.
                then_result (number_of "totalReserves" r5) λ reserves.
                  then_result (number_of "reserveFactorMantissa" r6) λ factor.
                    then_result (listed_of r7) λ market. ok (record {
                      underlying = underlying;
                      supply_rate_per_block = supply;
                      borrow_rate_per_block = borrow;
                      decimals = decimals;
                      total_borrows = borrows;
                      total_reserves = reserves;
                      reserve_factor_mantissa = factor;
                      market = market;
                    })
  market_info _ = err type_error

  unfoldable pub get_lending_market_infos : String → Action S VenusInfo
  unfolding market_calls market_info
  get_lending_market_infos market = do
    replies ← c.aggregate (market_calls market)
    from_result (market_info replies)

  unfoldable pub wallet_calls : String → VenusLending → List Call
  wallet_calls wallet lending =
      (lending.address, c.encode_v_token "balanceOf" (wallet ∷ []))
      ∷ (lending.address, c.encode_v_token "exchangeRateStored" [])
      ∷ (lending.address, c.encode_v_token "borrowBalanceStored" (wallet ∷ []))
      ∷ []

  -- `borrowBalance`: the test for empty data reads the reply to the call for the exchange rate.
  unfoldable pub borrow_balance : Reply → Reply → Result ℕ
  unfolding is_null_bytes
  borrow_balance exchange borrow =
      if borrow.success && not (is_null_bytes exchange.return_data)
      then c.decode_number "borrowBalanceStored" borrow.return_data
      else ok 0

  unfoldable pub supply_of : ℕ → ℕ → ℕ → B
  unfolding divide_decimals
  supply_of balance rate decimals =
      divide_decimals lib
        (text (
          to_fixed lib
            (big
              (div lib (big (mul lib (number balance) (number rate))) (number 1000000000000000000)))
            0))
        decimals

  -- The rest of the callback behind the three decoded numbers.
  unfoldable pub wallet_amounts : VenusLending → ℕ → ℕ → ℕ → Option WalletLending
  unfolding supply_of divide_decimals
  wallet_amounts lending balance rate borrow =
      let supply_amount = supply_of balance rate lending.decimals in
      let borrow_amount = divide_decimals lib (number borrow) lending.decimals in
      if is_zero lib (big supply_amount) && is_zero lib (big borrow_amount)
      then none
      else some (record {
        lending = lending;
        supply_amount = lib.to_string supply_amount;
        borrow_amount = lib.to_string borrow_amount;
      })

  -- The callback on a lending with its three replies.
  unfoldable pub wallet_info : VenusLending → Reply → Reply → Reply → Result (Option WalletLending)
  unfolding number_of borrow_balance wallet_amounts
  wallet_info lending balance_of exchange borrow =
      then_result (number_of "balanceOf" balance_of) λ balance.
        then_result (number_of "exchangeRateStored" exchange) λ rate.
          then_result (borrow_balance exchange borrow)
            λ borrowed. ok (wallet_amounts lending balance rate borrowed)

  -- The callback with its destructuring, which throws where a part is `undefined`.
  unfoldable pub zipped_info :
      Option VenusLending × Option (List Reply) → Result (Option WalletLending)
  unfolding wallet_info
  zipped_info (some lending, some (balance_of ∷ exchange ∷ borrow ∷ rest)) =
      wallet_info lending balance_of exchange borrow
  zipped_info _ = err type_error

  unfoldable pub get_lending_wallet_info :
      List VenusLending → String → Action S (List WalletLending)
  unfolding wallet_calls zipped_info flat collect
  get_lending_wallet_info markets wallet = do
    replies ← c.aggregate (flat (map (wallet_calls wallet) markets))
    from_result (collect zipped_info (lodash.zip markets (lodash.chunk replies 3)))

  -- The rest of `getWalletLendings` behind the search.
  unfoldable pub found_lendings :
      String → Option (List VenusLending) → Action S (List WalletLending)
  unfolding get_lending_wallet_info
  found_lendings wallet none = pure []
  found_lendings wallet (some items) = get_lending_wallet_info items wallet

  unfoldable pub get_wallet_lendings : String → P → Action S (List WalletLending)
  unfolding get_wallet_lending_market found_lendings
  get_wallet_lendings wallet params = do
    assets ← get_wallet_lending_market wallet
    items ← c.search_lendings params assets
    found_lendings wallet items
