-- ===== src/MdexJob.antt =====
-- src/scheduler-job/mdex-job/mdex-job.bsc.farm.service.ts: the rewards of a year of an exchange whose rewards
-- of a block are halved again and again. The other methods of the job are those of the farm job.
pub mod Sums
pub mod Meanings
pub mod Halvings
pub mod Rewards
use blockchain_task_server.Common.{ℕ, zero, suc, String, Option, none, some, if◌then◌else◌}
use blockchain_task_server.Effects.{Action, pure, ◌>>=◌}
use blockchain_task_server.BigNumber.{
  BigNumberLib, Value, number, big, text, add, sub, mul, div, is_greater_than, to_big_number,
}
use blockchain_task_server.BigNumber.Decimals.{divide_decimals}
use blockchain_task_server.FarmJob.Yields.{FarmToken, FarmState}

-- The DeFi service of the job; the contract takes a block number as a text.
pub record MdexContext (S B : Type 0) : Type 0 where
  pub get_block_number : Action S ℕ
  pub get_farm_total_alloc_point : Action S ℕ
  pub get_farm_halving_period : Action S ℕ
  pub get_farm_start_block : Action S ℕ
  pub get_farm_phase : String → Action S ℕ
  pub get_farm_reward : String → Action S ℕ
  pub block_time_second : Value B
  pub reward_token : FarmToken

-- What the loop reads and does not change: the halving period, the first block, the block in a year, and
-- its phase.
pub record Year (B : Type 0) : Type 0 where
  pub halving_period : ℕ
  pub start_block : ℕ
  pub after_one_year : B
  pub last_phase : ℕ

module _ {S B : Type 0} (lib : BigNumberLib B) (c : MdexContext S B) (year : Year B) where
  -- The block in which the `n`-th phase ends.
  unfoldable pub boundary : Value B → B
  boundary n = add lib (big (mul lib n (number year.halving_period))) (number year.start_block)

  -- The `while` loop on the phase, the last block and the rewards so far; without a result where the
  -- fuel does not suffice.
  unfoldable pub halving_loop : ℕ → Value B → Value B → B → Action S (Option B)
  unfolding boundary
  halving_loop zero n l rewards =
      if is_greater_than lib (number year.last_phase) n then pure none else pure (some rewards)
  halving_loop (suc fuel) n l rewards =
      let rest = halving_loop fuel in
      if is_greater_than lib (number year.last_phase) n
      then (let next = add lib n (number 1) in
          let r = boundary (big next) in
          c.get_farm_reward (lib.to_string r) >>= λ reward.
          let grown =
            add lib (big rewards) (big (mul lib (big (sub lib (big r) l)) (number reward))) in
          c.get_farm_reward (lib.to_string year.after_one_year) >>= λ reward_after.
          rest (big next) (big r) (
            add lib (big grown) (
              big
                (mul lib (big (sub lib (big year.after_one_year) (big r))) (number reward_after)))))
      else pure (some rewards)

module _ {S B : Type 0} (lib : BigNumberLib B) (c : MdexContext S B) where
  -- The value of the rewards of a year.
  unfoldable pub rewards_value : B → B
  unfolding divide_decimals
  rewards_value rewards =
      mul lib (big (divide_decimals lib (big rewards) c.reward_token.decimals))
        (text c.reward_token.price_value)

  unfoldable pub state_of : ℕ → Option B → Option (FarmState B)
  unfolding rewards_value
  state_of total none = none
  state_of total (some rewards) =
      some (record { total_alloc_point = total; reward_value_in_one_year = rewards_value rewards })

  -- `getFarmState`. The phase in a year is fuel enough for the loop, whose phase starts at 0 or more.
  unfoldable pub get_farm_state : Action S (Option (FarmState B))
  unfolding halving_loop state_of
  get_farm_state = do
    current ← c.get_block_number
    total ← c.get_farm_total_alloc_point
    period ← c.get_farm_halving_period
    start ← c.get_farm_start_block
    let after = add lib (number current) (big (div lib (number 31536000) c.block_time_second))
    n ← c.get_farm_phase (lib.print_number current)
    m ← c.get_farm_phase (lib.to_string after)
    rewards ←
        halving_loop lib c
          (record {
            halving_period = period;
            start_block = start;
            after_one_year = after;
            last_phase = m;
          })
          m (number n) (number current) (to_big_number lib (number 0))
    pure (state_of total rewards)
