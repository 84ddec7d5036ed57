-- ===== src/Tests/Halvings.antt =====
-- The rewards of a year with two halvings.
use blockchain_task_server.Common.{ℕ, ◌/◌, some, ◌≡◌, refl, ap, ◌∙◌, arith, ◌-◌}
use blockchain_task_server.Effects.{ok, pure}
use blockchain_task_server.BigNumber.{number, of_ℕ, div, to_big_number}
use blockchain_task_server.FarmJob.Yields.{FarmToken}
use blockchain_task_server.MdexJob.{MdexContext, get_farm_state, rewards_value}
use blockchain_task_server.MdexJob.Sums.{paid}
use blockchain_task_server.MdexJob.Rewards.{Chain, IsAnswered, get_farm_state_lem}
use blockchain_task_server.Tests.Samples.{tallies, tallies-IsExact, count, tally, count-tally}

abbrev mdx : FarmToken
mdx = record { address = "m"; symbol = "MDX"; decimals = 0; price_value = "||" }

-- Phases of four blocks; a block's reward is what it still lacks to 20.
abbrev reward : ℕ → ℕ
reward b = 20 - b

abbrev context : MdexContext (Unit {0}) ℕ
context = record {
  get_block_number = pure 1;
  get_farm_total_alloc_point = pure 4;
  get_farm_halving_period = pure 4;
  get_farm_start_block = pure 0;
  get_farm_phase = λ b. pure (count b / 4);
  get_farm_reward = λ b. pure (reward (count b));
  block_time_second = number 3153600;
  reward_token = mdx;
}

abbrev chain : Chain
chain = record {
  current = 1;
  total = 4;
  period = 4;
  start = 0;
  first_phase = 0;
  halvings = 2;
  blocks = 10;
}

divided : (x y : ℕ) → div tallies (number x) (number y) ≡ of_ℕ tallies (x / y)
unfolding div to_big_number
divided x y = rw (count-tally x, count-tally y, count-tally (x / y)) refl

context-IsAnswered : IsAnswered tallies context reward chain tt
context-IsAnswered = record {
  rewards_law = λ b t. ap (λ n. (ok (reward n), t)) (count-tally (count (tally b)) ∙ count-tally b);
  current_law = refl;
  total_law = refl;
  period_law = refl;
  start_law = refl;
  blocks_law = divided 31536000 3153600;
  first_law = refl;
  last_law = refl;
  first_ends = omega arith;
  last_begins = omega arith;
}

-- Those of the year are 123, and 63 are counted again.
halved_rewards : paid 4 0 11 reward 2 0 1 ≡ 186
unfolding paid
halved_rewards = refl

get_farm_state_example : get_farm_state tallies context tt ≡ (
  ok (
      some (record {
        total_alloc_point = 4;
        reward_value_in_one_year =
            rewards_value tallies context (of_ℕ tallies (paid 4 0 11 reward 2 0 1));
      })),
  tt,
)
get_farm_state_example =
    get_farm_state_lem tallies context reward chain tt tallies-IsExact context-IsAnswered
