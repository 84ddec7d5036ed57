-- ===== src/LendingJob/Markets.antt =====
-- The data of the lending job and its arithmetic.
use blockchain_task_server.Common.{ℕ, String, Bool, Option, List}
use blockchain_task_server.Effects.{Action}
use blockchain_task_server.BigNumber.{
  BigNumberLib, Value, number, big, text, add, sub, mul, div, to_fixed,
}
use blockchain_task_server.BigNumber.Decimals.{divide_decimals}

-- The columns of a token that the job reads.
pub record LendingToken : Type 0 where
  pub address : String
  pub decimals : ℕ
  pub price_value : String

-- What the contracts tell of a market.
pub record MarketInfo : Type 0 where
  pub underlying : String
  pub supply_rate_per_block : ℕ
  pub borrow_rate_per_block : ℕ
  pub total_borrows : ℕ
  pub total_reserves : ℕ
  pub reserve_factor_mantissa : ℕ
  pub is_listed : Bool
  pub collateral_factor_mantissa : ℕ

-- The row of a market.
pub record Lending : Type 0 where
  pub id : ℕ
  pub status : Bool

-- The values that a refresh writes.
pub record LendingValues : Type 0 where
  pub liquidity_amount : String
  pub liquidity_value : String
  pub supply_amount : String
  pub supply_value : String
  pub supply_apr : String
  pub borrow_amount : String
  pub borrow_value : String
  pub borrow_apr : String
  pub reserve_amount : String
  pub reserve_value : String
  pub collateral_factor : String
  pub reserve_factor : String

-- The row of a token's market at an address: a new one, new values, with the status true, and the status
-- false.
pub data LendingWrite : Type 0 where
  create_lending : LendingToken → String → LendingWrite
  update_lending : LendingToken → String → LendingValues → LendingWrite
  disable_lending : LendingToken → String → LendingWrite

-- The DeFi service of the job, the multicall contract, and the token and lending services. The token is an
-- active one at an address on the network.
pub record LendingContext (S B : Type 0) : Type 0 where
  pub get_lending_all_markets : Action S (List String)
  pub get_lending_market_infos : String → Action S MarketInfo
  pub get_balance : String → Action S ℕ
  pub get_safe_erc20_balance_of : String → String → Action S ℕ
  pub block_time_second : Value B
  pub find_token : String → Action S (Option LendingToken)
  pub find_lending : LendingToken → String → Action S (Option Lending)

module _ {S B : Type 0} (lib : BigNumberLib B) (c : LendingContext S B) where
  -- The interest of a year in percent, from the rate of a block.
  unfoldable pub apr_of : ℕ → B
  unfolding divide_decimals
  apr_of rate_per_block =
      let blocks_in_one_year =
        mul lib (big (div lib (number 86400) c.block_time_second)) (number 365) in
      mul lib
        (big
          (mul lib (big (divide_decimals lib (number rate_per_block) 18)) (big blocks_in_one_year)))
        (number 100)

  -- A factor in percent, from its mantissa.
  unfoldable pub factor_of : ℕ → B
  unfolding divide_decimals
  factor_of mantissa =
      mul lib (text (to_fixed lib (big (divide_decimals lib (number mantissa) 18)) 20)) (number 100)

  -- The arithmetic of `refreshLendingMarket`, on what the market holds of its token.
  unfoldable pub lending_values : LendingToken → MarketInfo → ℕ → LendingValues
  unfolding divide_decimals apr_of factor_of
  lending_values token info market_liquidity =
      let liquidity_amount = divide_decimals lib (number market_liquidity) token.decimals in
      let borrow_amount = divide_decimals lib (number info.total_borrows) 18 in
      let reserve_amount = divide_decimals lib (number info.total_reserves) 18 in
      let supply_amount =
        sub lib (big (add lib (big liquidity_amount) (big borrow_amount))) (big reserve_amount) in
      let value_of : B → String =
        λ amount. lib.to_string (mul lib (big amount) (text token.price_value)) in
      record {
        liquidity_amount = lib.to_string liquidity_amount;
        liquidity_value = value_of liquidity_amount;
        supply_amount = lib.to_string supply_amount;
        supply_value = value_of supply_amount;
        supply_apr = lib.to_string (apr_of info.supply_rate_per_block);
        borrow_amount = lib.to_string borrow_amount;
        borrow_value = value_of borrow_amount;
        borrow_apr = lib.to_string (apr_of info.borrow_rate_per_block);
        reserve_amount = lib.to_string reserve_amount;
        reserve_value = value_of reserve_amount;
        collateral_factor = lib.to_string (factor_of info.collateral_factor_mantissa);
        reserve_factor = lib.to_string (factor_of info.reserve_factor_mantissa);
      }
