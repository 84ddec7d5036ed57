-- ===== src/BigNumber/Decimals.antt =====
-- libs/helper/src/decimals.ts
use blockchain_task_server.Common.{ℕ, if◌then◌else◌}
use blockchain_task_server.BigNumber.{BigNumberLib, Value, to_big_number}

module _ {B : Type 0} (lib : BigNumberLib B) where
  unfoldable pub multiply_decimals : Value B → ℕ → B
  unfolding to_big_number
  multiply_decimals value decimals =
      let b = to_big_number lib value in if lib.zero? b then b else lib.shifted_up b decimals

  unfoldable pub divide_decimals : Value B → ℕ → B
  unfolding to_big_number
  divide_decimals value decimals =
      let b = to_big_number lib value in if lib.zero? b then b else lib.shifted_down b decimals
