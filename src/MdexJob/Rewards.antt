-- ===== src/MdexJob/Rewards.antt =====
-- The rewards of a year, where the big numbers compute exactly and the contract answers.
use blockchain_task_server.Common.{ℕ, ◌+◌, ◌*◌, ◌≤◌, some, ◌≡◌, refl, ◌∙◌, arith}
use native.Mathlib.Nat.{zero-add}
use blockchain_task_server.Effects.{ok, pure, ◌>>=◌}
use blockchain_task_server.BigNumber.{
  BigNumberLib, IsExact, number, big, of_ℕ, to_big_number, add, div,
}
use blockchain_task_server.MdexJob.{
  MdexContext, halving_loop, get_farm_state, rewards_value, state_of,
}
use blockchain_task_server.MdexJob.Sums.{phase_end, paid, looped-paid}
use blockchain_task_server.MdexJob.Meanings.{big-Means, number-Means, add-Means}
use blockchain_task_server.MdexJob.Halvings.{loop_sums}

-- What the contracts tell: the block number, the points of all farms, the halving period, the first block,
-- the phase now, the halvings within a year, and the blocks of a year.
pub record Chain : Type 0 where
  pub current : ℕ
  pub total : ℕ
  pub period : ℕ
  pub start : ℕ
  pub first_phase : ℕ
  pub halvings : ℕ
  pub blocks : ℕ

module _ {S B : Type 0} (lib : BigNumberLib B) (c : MdexContext S B) (reward : ℕ → ℕ)
    (chain : Chain) (s : S) where
  -- The calls return these numbers and change nothing; the first phase ends behind the current block, and
  -- the last one begins before the block in a year.
  pub record IsAnswered : Type 0 where
    pub rewards_law :
        (b : ℕ) (t : S) → c.get_farm_reward (lib.to_string (of_ℕ lib b)) t ≡ (ok (reward b), t)
    pub current_law : c.get_block_number s ≡ (ok chain.current, s)
    pub total_law : c.get_farm_total_alloc_point s ≡ (ok chain.total, s)
    pub period_law : c.get_farm_halving_period s ≡ (ok chain.period, s)
    pub start_law : c.get_farm_start_block s ≡ (ok chain.start, s)
    pub blocks_law : div lib (number 31536000) c.block_time_second ≡ of_ℕ lib chain.blocks
    pub first_law : c.get_farm_phase (lib.print_number chain.current) s ≡ (ok chain.first_phase, s)
    pub last_law :
        c.get_farm_phase (lib.to_string (of_ℕ lib (chain.current + chain.blocks))) s
        ≡ (ok (chain.first_phase + chain.halvings), s)
    pub first_ends :
        chain.current
        ≤ phase_end chain.period chain.start (chain.current + chain.blocks) reward chain.first_phase
    pub last_begins :
        (chain.first_phase + chain.halvings) * chain.period + chain.start
        ≤ chain.current + chain.blocks

  module _ (exact : IsExact lib) (answered : IsAnswered) where
    abbrev after : ℕ
    after = chain.current + chain.blocks

    after_year :
        add lib (number chain.current) (big (div lib (number 31536000) c.block_time_second))
        ≡ of_ℕ lib after
    after_year =
        add-Means lib exact (number chain.current) _ chain.current chain.blocks
          (number-Means lib exact chain.current) (big-Means lib exact _ _ answered.blocks_law)

    after_reads :
        get_farm_state lib c s
        ≡ (halving_loop lib c
                (record {
                  halving_period = chain.period;
                  start_block = chain.start;
                  after_one_year = of_ℕ lib after;
                  last_phase = chain.first_phase + chain.halvings;
                })
                (chain.first_phase + chain.halvings)
                (number chain.first_phase)
                (number chain.current)
                (to_big_number lib (number 0))
              >>= λ rewards. pure (state_of lib c chain.total rewards))
            s
    unfolding get_farm_state
    after_reads =
        rw
          (
            answered.current_law, answered.total_law, answered.period_law, answered.start_law,
            answered.first_law, after_year, answered.last_law,
          )
          refl

    -- If the big numbers compute exactly, the calls return what the chain holds and change nothing, the
    -- phase now ends behind the current block, and the last phase begins before the block in a year, then
    -- `getFarmState` returns the value of the rewards of the year, with what lies behind the end of each
    -- phase but the last counted once more at the last reward; and where the year sees no halving, the
    -- value of no rewards at all.
    pub get_farm_state_lem : get_farm_state lib c s ≡ (
      ok (
          some (record {
            total_alloc_point = chain.total;
            reward_value_in_one_year = rewards_value lib c (
                of_ℕ lib (
                  paid chain.period chain.start after reward chain.halvings chain.first_phase
                    chain.current));
          })),
      s,
    )
    unfolding state_of
    get_farm_state_lem =
        after_reads
        ∙ rw
            (
              loop_sums lib exact c reward answered.rewards_law chain.period chain.start after
                  (chain.first_phase + chain.halvings) chain.halvings
                  (chain.first_phase + chain.halvings) chain.first_phase chain.current 0
                  (number chain.first_phase) (number chain.current) (to_big_number lib (number 0)) s
                  (number-Means lib exact chain.first_phase) (number-Means lib exact chain.current)
                  refl refl (omega arith) answered.first_ends answered.last_begins,
              looped-paid chain.period chain.start after reward chain.halvings chain.first_phase
                  chain.current,
              zero-add,
            )
            refl
