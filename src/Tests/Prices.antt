-- ===== src/Tests/Prices.antt =====
-- Runs of the price jobs over a platform in memory, and over replies by a table.
use blockchain_task_server.Common.{
  ℕ, String, true, none, some, List, [], ◌∷◌, ◌≡◌, refl, ◌⊎◌, map, get_elem?, All, false, ltb, sym,
  ◌∙◌, arith,
}
use blockchain_task_server.Effects.{Action, ok, pure, collect, map_each}
use blockchain_task_server.Lodash.Lists.{lists, lists-IsDocumented}
use blockchain_task_server.Contracts.{Call, Reply, Answers}
use blockchain_task_server.Platform.{Platform}
use blockchain_task_server.Platform.Memory.{Memory, Tables, memory, memory-IsLawful}
use blockchain_task_server.BigNumber.{big, is_greater_than}
use blockchain_task_server.SchedulerJob.Exclusion.{ticks}
use blockchain_task_server.SchedulerJob.Machine.{Reaches}
use blockchain_task_server.Template.Atomic.{Moved}
use blockchain_task_server.PriceJob.Params.{PriceToken, PairToken, PriceParam, Erc20Calls, zero_big}
use blockchain_task_server.PriceJob.{PriceContext, bulk_update, run}
use blockchain_task_server.PriceJob.SingleAmm.{
  prepare, single_calls, single_param, crawl_single, find_highest_liquidity_pair,
}
use blockchain_task_server.PriceJob.Highest.{above, IsStrict, find_highest_liquidity_pair_lem}
use blockchain_task_server.PriceJob.Aligned.{crawl_single_lem}
use blockchain_task_server.PriceJob.Units.{IsFit, IsBulk, bulk_update_fits}
use blockchain_task_server.PriceJob.Refinement.{IsChunk, IsReader, price_ticks_refine}
use blockchain_task_server.Tests.Samples.{tallies, count, count-tally, memory_state, world}
use blockchain_task_server.Tests.Samples.{context as job_context}

abbrev platform : Platform PriceParam (Memory PriceParam) (Tables PriceParam)
platform = memory PriceParam

abbrev prices : List PriceParam
prices = (record { id = 3; price_value = "||"; total_supply = "|" }) ∷ []

abbrev context : PriceContext (Memory PriceParam) ℕ
context = record {
  get_tokens = pure (3 ∷ []);
  crawl_token_supply_and_price = λ chain_id tokens. pure prices;
  group_by_chain_id = λ tokens. (56, tokens) ∷ [];
  is_finite = λ value. true;
}

zero-IsFit : IsFit platform tallies lists context (tallies.to_string (zero_big tallies))
unfolding is_greater_than
zero-IsFit = (refl, refl)

context-IsReader :
    IsReader platform tallies lists context (memory-IsLawful PriceParam) zero-IsFit "a"
context-IsReader = record {
  tokens_read = λ s. (refl, refl);
  crawl_reads = λ chain_id tokens s. (refl, refl);
}

bulk_update_fits_example :
    Moved platform
      (memory-IsLawful PriceParam)
      (IsBulk platform tallies lists context prices)
      memory_state.tables
      (bulk_update platform tallies lists context prices memory_state).1.tables
bulk_update_fits_example =
    bulk_update_fits platform tallies lists context (memory-IsLawful PriceParam) zero-IsFit prices
      memory_state

price_ticks_refine_example :
    Reaches platform
      (memory-IsLawful PriceParam)
      "a"
      (IsChunk platform tallies lists context (memory-IsLawful PriceParam) zero-IsFit "a")
      memory_state.tables
      (ticks platform "a" job_context
        (run platform tallies lists context)
        ((5, 9) ∷ [])
        world).env.tables
unfolding world
price_ticks_refine_example =
    price_ticks_refine platform tallies lists context (memory-IsLawful PriceParam) zero-IsFit "a"
      context-IsReader job_context ((5, 9) ∷ []) world

abbrev token : String → PriceToken
token address = record {
  id = count address;
  chain_id = 56;
  address = address;
  decimals = 0;
  price_value = "||";
  price_address = some "feed";
}

abbrev pair : String → String → PairToken
pair supply price = record {
  id = 9;
  address = "p";
  decimals = 0;
  total_supply = supply;
  price_value = price;
  pair0 = some (token "|");
  pair1 = some (token "||");
}

abbrev reply : Unit {0} → Call → Reply
reply _ call = record { success = true; return_data = call.1 }

abbrev calls : Erc20Calls (Unit {0})
calls = record {
  aggregate = λ chain_id batch. pure (map (reply tt) batch);
  encode_total_supply = "|||";
  encode_balance_of = λ address. "||||";
  decode_total_supply = λ text. ok (count text);
  decode_balance_of = λ text. ok (count text);
}

calls-Answers : Answers (calls.aggregate 56) reply
calls-Answers batch s replies e = cc

abbrev pairs : List PairToken
pairs = pair "|" "|" ∷ pair "||" "||" ∷ pair "|" "||" ∷ []

abbrev find_pairs : PriceToken → Action (Unit {0}) (List PairToken)
find_pairs t = pure pairs

above_text : (a b : ℕ) → is_greater_than tallies (big a) (big b) ≡ ltb b a
unfolding is_greater_than
above_text a b = rw (count-tally a, count-tally b) refl

strict : IsStrict tallies lists calls find_pairs
strict = record {
  irreflexive = λ a. above_text a a ∙ ground arith;
  transitive = λ a b c h k.
      above_text a c ∙ ground (arith, sym (above_text a b) ∙ h, sym (above_text b c) ∙ k);
}

find_highest_liquidity_pair_example :
    ((find_highest_liquidity_pair tallies lists calls find_pairs pairs ≡ none)
      ⊎ (((k : ℕ) × (get_elem? pairs k
              ≡ find_highest_liquidity_pair tallies lists calls find_pairs pairs))
          × (above tallies lists calls find_pairs
                (find_highest_liquidity_pair tallies lists calls find_pairs pairs)
                none
              ≡ true)))
    × All
        (λ p.
          above tallies lists calls find_pairs
            (some p)
            (find_highest_liquidity_pair tallies lists calls find_pairs pairs)
          ≡ false)
        pairs
find_highest_liquidity_pair_example =
    find_highest_liquidity_pair_lem tallies lists calls find_pairs strict pairs

crawl_single_example :
    (crawl_single tallies lists calls find_pairs 56 (token "|" ∷ token "|||" ∷ []) tt).0
    ≡ collect
        (λ x.
          single_param tallies lists calls find_pairs x
            (some (map (reply tt) (single_calls tallies lists calls find_pairs x))))
        ((record { token = token "|"; other = some (token "||", "p") })
          ∷ (record { token = token "|||"; other = some (token "|", "p") })
          ∷ [])
unfolding prepare find_highest_liquidity_pair map_each
crawl_single_example =
    crawl_single_lem tallies lists lists-IsDocumented calls 56 reply calls-Answers find_pairs
      (token "|" ∷ token "|||" ∷ []) _ _ tt tt refl refl
