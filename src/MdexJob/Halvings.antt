-- ===== src/MdexJob/Halvings.antt =====
-- The loop over the halvings of a year, where the big numbers compute exactly and the contract answers.
use blockchain_task_server.Common.{
  ℕ, zero, suc, ◌+◌, ◌-◌, ◌*◌, ◌≤◌, ◌<◌, false, true, some, ◌≡◌, refl, ap, ◌∙◌, arith,
}
use native.Mathlib.Nat.{mul-le-mul_right}
use blockchain_task_server.Effects.{ok}
use blockchain_task_server.BigNumber.{
  BigNumberLib, IsExact, Value, number, big, of_ℕ, add, sub, mul, is_greater_than,
}
use blockchain_task_server.MdexJob.{MdexContext, Year, boundary, halving_loop}
use blockchain_task_server.MdexJob.Sums.{looped, phase_end}
use blockchain_task_server.MdexJob.Meanings.{
  Means, big-Means, number-Means, add-Means, mul-Means, greater-Means, segment-Means,
}

module _ {B S : Type 0} (lib : BigNumberLib B) (exact : IsExact lib) (c : MdexContext S B)
    (reward : ℕ → ℕ)
    (rewards_law : (b : ℕ) (s : S)
      → c.get_farm_reward (lib.to_string (of_ℕ lib b)) s ≡ (ok (reward b), s))
    (period start after last : ℕ) where
  abbrev year : Year B
  year = record {
    halving_period = period;
    start_block = start;
    after_one_year = of_ℕ lib after;
    last_phase = last;
  }

  abbrev end_of : ℕ → ℕ
  end_of = phase_end period start after reward

  abbrev sum_of : ℕ → ℕ → ℕ → ℕ
  sum_of = looped period start after reward

  boundary-Means :
      (v : Value B) (n : ℕ)
      → Means lib exact v (n + 1)
      → boundary lib c year v ≡ of_ℕ lib (end_of n)
  unfolding boundary
  boundary-Means v n e =
      add-Means lib exact _ _ ((n + 1) * period) start
        (big-Means lib exact _ _
          (mul-Means lib exact v (number period) (n + 1) period e (number-Means lib exact period)))
        (number-Means lib exact start)

  loop_ends :
      (fuel n : ℕ) (v l : Value B) (total : B) (s : S)
      → Means lib exact v n
      → last ≤ n
      → halving_loop lib c year fuel v l total s ≡ (ok (some total), s)
  unfolding halving_loop
  loop_ends zero n v l total s e h =
      let done : is_greater_than lib (number last) v ≡ false =
        greater-Means lib exact _ v last n (number-Means lib exact last) e ∙ ground arith in
      rw done refl
  loop_ends (suc fuel) n v l total s e h =
      let done : is_greater_than lib (number last) v ≡ false =
        greater-Means lib exact _ v last n (number-Means lib exact last) e ∙ ground arith in
      rw done refl

  inside_year : (n : ℕ) → n < last → last * period + start ≤ after → end_of n ≤ after
  inside_year n h within =
      let grows : (n + 1) * period ≤ last * period = mul-le-mul_right period (omega arith) in
      omega arith

  ends_grow : (n : ℕ) → end_of n ≤ end_of (n + 1)
  ends_grow n =
      let grows : (n + 1) * period ≤ (n + 1 + 1) * period = mul-le-mul_right period (omega arith) in
      omega arith

  grown_total : (t a b rest : ℕ) → (t + a + b) + rest ≡ t + ((a + b) + rest)
  grown_total t a b rest = omega arith

  -- What the variables are behind an iteration.
  abbrev next_of : Value B → B
  next_of v = add lib v (number 1)

  abbrev end_block : Value B → B
  end_block v = boundary lib c year (big (next_of v))

  abbrev next_total : ℕ → Value B → Value B → B → B
  next_total n v l total =
      add lib
        (big (
          add lib (big total)
            (big (mul lib (big (sub lib (big (end_block v)) l)) (number (reward (end_of n)))))))
        (big (
          mul lib (big (sub lib (big (of_ℕ lib after)) (big (end_block v))))
            (number (reward after))))

  end_block-Means : (v : Value B) (n : ℕ) → Means lib exact v n → end_block v ≡ of_ℕ lib (end_of n)
  end_block-Means v n e =
      boundary-Means (big (next_of v)) n (
        big-Means lib exact _ _ (add-Means lib exact v (number 1) n 1 e (number-Means lib exact 1)))

  loop_goes_on :
      (fuel n : ℕ) (v l : Value B) (total : B) (s : S)
      → Means lib exact v n
      → n < last
      → halving_loop lib c year (suc fuel) v l total s
        ≡ halving_loop lib c year fuel
            (big (next_of v))
            (big (end_block v))
            (next_total n v l total)
            s
  unfolding halving_loop
  loop_goes_on fuel n v l total s e h =
      let goes_on : is_greater_than lib (number last) v ≡ true =
        greater-Means lib exact _ v last n (number-Means lib exact last) e ∙ ground arith in
      let answered : c.get_farm_reward (lib.to_string (end_block v)) s
          ≡ (ok (reward (end_of n)), s) =
        ap (λ b. c.get_farm_reward (lib.to_string b) s) (end_block-Means v n e)
        ∙ rewards_law (end_of n) s in
      rw (goes_on, answered, rewards_law after s) refl

  next_total-Means :
      (n at_block t : ℕ) (v l : Value B) (total : B)
      → Means lib exact v n
      → Means lib exact l at_block
      → total ≡ of_ℕ lib t
      → at_block ≤ end_of n
      → end_of n ≤ after
      → next_total n v l total
        ≡ of_ℕ lib
            (t + (end_of n - at_block) * reward (end_of n) + (after - end_of n) * reward after)
  next_total-Means n at_block t v l total ev el et before within =
      let here = big-Means lib exact _ _ (end_block-Means v n ev) in
      segment-Means lib exact _ (big (of_ℕ lib after)) (big (end_block v)) _ _ after (end_of n)
        (reward after) within
        (big-Means lib exact _ _ (
          segment-Means lib exact (big total) (big (end_block v)) l _ t (end_of n) at_block
            (reward (end_of n)) before (big-Means lib exact _ _ et) here el
            (number-Means lib exact _)))
        (big-Means lib exact _ _ refl) here (number-Means lib exact _)

  -- The loop over `d` halvings.
  pub loop_sums :
      (d fuel n at_block t : ℕ) (v l : Value B) (total : B) (s : S)
      → Means lib exact v n
      → Means lib exact l at_block
      → total ≡ of_ℕ lib t
      → n + d ≡ last
      → d ≤ fuel
      → at_block ≤ end_of n
      → last * period + start ≤ after
      → halving_loop lib c year fuel v l total s
        ≡ (ok (some (of_ℕ lib (t + sum_of d n at_block))), s)
  unfolding looped
  loop_sums zero fuel n at_block t v l total s ev el et count enough before within =
      loop_ends fuel n v l total s ev (omega arith)
      ∙ ap (λ b. (ok (some b), s)) (et ∙ ap (of_ℕ lib) (omega arith))
  loop_sums (suc d) zero n at_block t v l total s ev el et count enough before within =
      absurd (omega arith)
  loop_sums (suc d) (suc fuel) n at_block t v l total s ev el et count enough before within =
      let inside : end_of n ≤ after = inside_year n (omega arith) within in
      loop_goes_on fuel n v l total s ev (omega arith)
      ∙ (loop_sums d fuel (n + 1) (end_of n) _ (big (next_of v)) (big (end_block v)) _ s
            (big-Means lib exact _ _
              (add-Means lib exact v (number 1) n 1 ev (number-Means lib exact 1)))
            (big-Means lib exact _ _ (end_block-Means v n ev))
            (next_total-Means n at_block t v l total ev el et before inside) (omega arith)
            (omega arith) (ends_grow n) within
          ∙ ap (λ k. (ok (some (of_ℕ lib k)), s)) (grown_total t _ _ _))
