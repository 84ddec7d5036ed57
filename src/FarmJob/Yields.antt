-- ===== src/FarmJob/Yields.antt =====
-- The data of the farm job and its arithmetic, with libs/helper/src/naming.ts.
use blockchain_task_server.Common.{
  ℕ, String, ◌<>◌, Bool, Option, List, [], ◌∷◌, ◌||◌, if◌then◌else◌,
}
use blockchain_task_server.Exceptions.{Thrown}
use blockchain_task_server.Effects.{Action, pure, ◌>>=◌}
use blockchain_task_server.BigNumber.Decimals.{divide_decimals}
use blockchain_task_server.BigNumber.{
  BigNumberLib, Value, number, big, text, mul, div, is_zero, to_big_number,
}

-- The columns of a token that the job reads; `price_value` is a decimal column, read as a text.
pub record FarmToken : Type 0 where
  pub address : String
  pub symbol : String
  pub decimals : ℕ
  pub price_value : String

-- The columns of a farm that the job reads.
pub record Farm : Type 0 where
  pub id : ℕ
  pub stake_tokens : List FarmToken
  pub status : Bool

-- What the contract tells of a pid.
pub record FarmInfo : Type 0 where
  pub lp_token : String
  pub alloc_point : ℕ

pub record FarmState (B : Type 0) : Type 0 where
  pub total_alloc_point : ℕ
  pub reward_value_in_one_year : B

-- The values that a refresh writes.
pub record FarmYield : Type 0 where
  pub liquidity_amount : String
  pub liquidity_value : String
  pub apr : String

-- A farm to be created at a pid, with its assets' name, its stake token and its reward token; the new
-- values of a farm, whose status becomes true; and the end of a farm, whose status becomes false.
pub data FarmWrite : Type 0 where
  create_farm : ℕ → String → FarmToken → FarmToken → FarmWrite
  update_farm : ℕ → FarmYield → FarmWrite
  deactivate : ℕ → FarmWrite

-- The DeFi service of the job, the multicall contract, the farm and token services, and what
-- `JSON.stringify` returns. The token is an active one at an address
-- on the network, as the transaction sees it.
pub record FarmContext (S B : Type 0) : Type 0 where
  pub get_farm_total_length : Action S ℕ
  pub get_farm_infos : List ℕ → Action S (List (Option FarmInfo))
  pub get_farm_total_alloc_point : Action S ℕ
  pub get_farm_reward_per_block : Action S ℕ
  pub block_time_second : Value B
  pub reward_token : FarmToken
  pub get_safe_erc20_balance_of : String → Action S ℕ
  pub find_farm : ℕ → Action S (Option Farm)
  pub find_farm_in : ℕ → Action S (Option Farm)
  pub find_token_in : String → Action S (Option FarmToken)
  pub to_json : Thrown → Option String

-- `join('&')` on the symbols
abbrev pub join_symbols : List FarmToken → String
join_symbols [] = ""
join_symbols (t ∷ []) = t.symbol
join_symbols (t ∷ u ∷ ts) = t.symbol <> ("&" <> join_symbols (u ∷ ts))

unfoldable pub get_farm_asset_name : List FarmToken → List FarmToken → String
get_farm_asset_name stakes rewards = join_symbols stakes <> ("/" <> join_symbols rewards)

module _ {B : Type 0} (lib : BigNumberLib B) where
  -- The value of all rewards of a year, from the time of a block, the token and the rewards of a block.
  unfoldable pub year_value : Value B → FarmToken → ℕ → B
  unfolding divide_decimals
  year_value block_time_second token reward_per_block =
      let in_one_block = divide_decimals lib (number reward_per_block) token.decimals in
      let blocks_in_one_day = div lib (number 86400) block_time_second in
      let in_one_day = mul lib (big in_one_block) (big blocks_in_one_day) in
      let value_in_one_day = mul lib (big in_one_day) (text token.price_value) in
      mul lib (number 365) (big value_in_one_day)

  -- The arithmetic of `refreshFarm`, on the farm's balance of its stake token.
  unfoldable pub farm_yield : ℕ → FarmState B → FarmToken → ℕ → FarmYield
  unfolding divide_decimals
  farm_yield alloc_point state stake balance =
      let amount = divide_decimals lib (number balance) stake.decimals in
      let value = mul lib (big amount) (text stake.price_value) in
      let share = div lib (number alloc_point) (number state.total_alloc_point) in
      let allocated = mul lib (big state.reward_value_in_one_year) (big share) in
      let apr =
        if is_zero lib (big allocated) || is_zero lib (big value)
        then to_big_number lib (number 0)
        else mul lib (big (div lib (big allocated) (big value))) (number 100) in
      record {
        liquidity_amount = lib.to_string amount;
        liquidity_value = lib.to_string value;
        apr = lib.to_string apr;
      }

module _ {S B : Type 0} (lib : BigNumberLib B) (c : FarmContext S B) where
  unfoldable pub get_farm_state : Action S (FarmState B)
  unfolding year_value
  get_farm_state = do
    total ← c.get_farm_total_alloc_point
    reward ← c.get_farm_reward_per_block
    pure (record {
      total_alloc_point = total;
      reward_value_in_one_year = year_value lib c.block_time_second c.reward_token reward;
    })
