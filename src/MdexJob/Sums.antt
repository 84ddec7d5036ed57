-- ===== src/MdexJob/Sums.antt =====
-- The rewards of a year as sums.
use blockchain_task_server.Common.{ℕ, zero, suc, ◌+◌, ◌-◌, ◌*◌, ◌≡◌, refl, arith}

module _ (period start after : ℕ) (reward : ℕ → ℕ) where
  -- The block in which a phase ends.
  abbrev pub phase_end : ℕ → ℕ
  phase_end n = (n + 1) * period + start

  -- The rewards from the block `l` of phase `n` on, over `d` halvings, each phase with its own reward, and
  -- the last one up to the block in a year.
  unfoldable pub year_rewards : ℕ → ℕ → ℕ → ℕ
  year_rewards zero n l = (after - l) * reward after
  year_rewards (suc d) n l =
      (phase_end n - l) * reward (phase_end n) + year_rewards d (n + 1) (phase_end n)

  -- What lies behind the ends of all phases but the last, once more at the last reward.
  unfoldable pub counted_again : ℕ → ℕ → ℕ
  counted_again zero n = 0
  counted_again (suc zero) n = 0
  counted_again (suc (suc d)) n =
      (after - phase_end n) * reward after + counted_again (suc d) (n + 1)

  -- What the loop adds up.
  unfoldable pub looped : ℕ → ℕ → ℕ → ℕ
  looped zero n l = 0
  looped (suc d) n l =
      ((phase_end n - l) * reward (phase_end n) + (after - phase_end n) * reward after)
      + looped d (n + 1) (phase_end n)

  -- The rewards with what is counted again, and none without a halving.
  unfoldable pub paid : ℕ → ℕ → ℕ → ℕ
  unfolding year_rewards counted_again
  paid zero n l = 0
  paid (suc d) n l = year_rewards (suc d) n l + counted_again (suc d) n

  shuffle : (a b c d : ℕ) → (a + b) + (c + d) ≡ (a + c) + (b + d)
  shuffle a b c d = omega arith

  -- The loop counts the rewards of the year, and more.
  looped-year_rewards :
      (d n l : ℕ) → looped (suc d) n l ≡ year_rewards (suc d) n l + counted_again (suc d) n
  unfolding looped year_rewards counted_again
  looped-year_rewards zero n l = omega arith
  looped-year_rewards (suc d) n l = rw (looped-year_rewards d (n + 1) (phase_end n)) (
      shuffle ((phase_end n - l) * reward (phase_end n)) ((after - phase_end n) * reward after)
        (year_rewards (suc d) (n + 1) (phase_end n)) (counted_again (suc d) (n + 1)))

  pub looped-paid : (d n l : ℕ) → looped d n l ≡ paid d n l
  unfolding looped paid
  looped-paid zero n l = refl
  looped-paid (suc d) n l = looped-year_rewards d n l
