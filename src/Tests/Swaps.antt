-- ===== src/Tests/Swaps.antt =====
-- The choice of pairs and trades, on tokens and trades that are numbers.
use blockchain_task_server.Common.{
  ℕ, ◌+◌, String, true, not, none, some, Option, List, [], ◌∷◌, map, str_eq, arith, ◌≡◌, ◌⊎◌, refl,
  ltb, ◌==◌, if◌then◌else◌,
}
use blockchain_task_server.Exceptions.{error}
use blockchain_task_server.Effects.{Result, err, ok, pure, collect}
use blockchain_task_server.Lodash.Lists.{lists, lists-IsDocumented}
use blockchain_task_server.Contracts.{Call, Reply, Answers, decode_or}
use blockchain_task_server.Swap.Reserves.{pair_from}
use blockchain_task_server.Swap.Protocols.{
  Factory, Service, SwapContext, ProtocolMap, add_protocols, get_protocol_with_factory_infos,
  get_protocol_pairs, pair_address,
}
use blockchain_task_server.Swap.Search.{
  SwapToken, SearchContext, quote, get_in_output_token_instances, get_common_path_token_instances,
  search, search_lem,
}
use blockchain_task_server.Swap.Offers.{offer_of}
use blockchain_task_server.Tests.Samples.{tallies, tally, count}
use blockchain_task_server.Swap.{get_all_currency_combinations, get_best_trade}
use blockchain_task_server.Swap.Distinct.{AreDistinct, combinations-AreDistinct}
use blockchain_task_server.Swap.Choice.{IsStrict, IsUnbeaten, get_best_trade_lem}

-- The common path holds the first of the two tokens.
combinations_sorted :
    get_all_currency_combinations (λ a b. a == b) ltb 5 2 (5 ∷ 9 ∷ [])
    ≡ (2, 5) ∷ (5, 9) ∷ (2, 9) ∷ []
unfolding get_all_currency_combinations
combinations_sorted = refl

combinations-AreDistinct_example :
    AreDistinct
      (λ a b. a == b)
      ltb
      (get_all_currency_combinations (λ a b. a == b) ltb 5 2 (5 ∷ 9 ∷ []))
combinations-AreDistinct_example = combinations-AreDistinct (λ a b. a == b) ltb 5 2 (5 ∷ 9 ∷ [])

-- A trade is its price, and one price is better by more than the minimal difference from two on.
abbrev scaled : ℕ → ℕ
scaled n = n + 1

trades-IsStrict : IsStrict (λ (n : ℕ). n) scaled ltb
trades-IsStrict = record {
  irreflexive = λ a. ground arith;
  transitive = λ a b c h k. ground (arith, h, k);
}

abbrev trades : ℕ → Result (Option ℕ)
trades hops = ok (if hops == 2 then some 8 else (if hops == 3 then some 9 else none))

get_best_trade_lem_example :
    (best : Option ℕ) × (get_best_trade (λ (n : ℕ). n) scaled ltb trades ≡ ok best)
    × ((best ≡ none) ⊎ (best ≡ some 8) ⊎ (best ≡ some 9))
    × IsUnbeaten (λ (n : ℕ). n) scaled ltb best none
    × IsUnbeaten (λ (n : ℕ). n) scaled ltb best (some 8)
    × IsUnbeaten (λ (n : ℕ). n) scaled ltb best (some 9)
get_best_trade_lem_example =
    get_best_trade_lem (λ (n : ℕ). n) scaled ltb trades-IsStrict trades none (some 8) (some 9) refl
      refl refl

-- Two exchanges on one network, and one on another.
abbrev service : ℕ → Service
service protocol = record {
  chain_id = if protocol == 3 then 1 else 56;
  amm_factory_address = tally protocol;
  amm_factory_init_code_hash = "h";
}

unfoldable protocols : ProtocolMap
protocols = add_protocols (λ a. true) (λ b. true) service (λ chain_id. none) (1 ∷ 2 ∷ 3 ∷ [])

-- The address "|" of the first exchange's pairs has no contract.
abbrev reply : Unit {0} → Call → Reply
reply _ call = record { success = not (str_eq call.0 "|"); return_data = call.0 }

abbrev context : SwapContext (Unit {0}) String (String × ℕ)
context = record {
  to_lower = λ s. s;
  precedes = λ a b. ltb (count a) (count b);
  create2 = λ factory init_hash a b. factory;
  address_of = λ a. a;
  make_pair = λ a n b m. ok (a, n + m);
  aggregate = λ chain_id calls. pure (map (reply tt) calls);
  encode_get_reserves = "r";
  decode_get_reserves = λ text. ok (count text, 5);
}

context-Answers : Answers (context.aggregate 56) reply
context-Answers calls s replies e = cc

abbrev factories : List Factory
factories =
    (record { protocol = 1; amm_factory_address = "|"; amm_factory_init_code_hash = "h" })
    ∷ (record { protocol = 2; amm_factory_address = "||"; amm_factory_init_code_hash = "h" })
    ∷ []

abbrev tokens : List (String × String)
tokens = ("a", "b") ∷ ("b", "c") ∷ []

-- The first exchange has no pairs, and the second has both.
pairs_found :
    (get_protocol_pairs lists context protocols 56 tokens tt).0
    ≡ ok ((1, []) ∷ (2, ("a", 7) ∷ ("b", 7) ∷ []) ∷ [])
unfolding get_protocol_pairs protocols add_protocols
pairs_found = refl

-- A trade is an amount; there is one wherever there is a pair, and a throw where there is none.
abbrev trade_of : List (String × ℕ) → ℕ → Result (Option ℕ)
trade_of [] amount = err (error (some "PAIRS"))
trade_of (pair ∷ pairs) amount = ok (some amount)

abbrev sdk : SearchContext (Unit {0}) String (String × ℕ) ℕ ℕ ℕ ℕ
sdk = record {
  token_instance = λ chain_id fields. ok fields.address;
  find_base_tokens = pure [];
  equals = str_eq;
  sorts_before = λ a b. ltb (count a) (count b);
  from_raw_amount = λ a amount. ok amount;
  best_trade_exact_in = λ pairs amount b hops. trade_of pairs amount;
  execution_price = λ n. n;
  with_minimum_delta = scaled;
  less_than = ltb;
  output_amount = tally;
}

abbrev swap_token : String → SwapToken
swap_token address = record {
  fields = record { address = address; decimals = 0; symbol = address; name = address };
  wrapped = none;
}

-- The first exchange does not have the pair, and the search is rejected.
search_quotes :
    (search tallies lists context sdk protocols 56 (swap_token "||") (swap_token "|") "|||" tt).0
    ≡ err (error (some "PAIRS"))
unfolding search protocols add_protocols get_protocol_pairs get_all_currency_combinations
search_quotes = refl

search_lem_example :
    (search tallies lists context sdk protocols 56 (swap_token "||") (swap_token "|") "|||" tt).0
    ≡ collect
        (quote tallies lists context sdk protocols 56 (swap_token "||") "|||" "||" "|")
        ((1, []) ∷ (2, ("|", 7) ∷ []) ∷ [])
unfolding protocols add_protocols get_protocol_with_factory_infos get_all_currency_combinations
    get_in_output_token_instances get_common_path_token_instances offer_of collect pair_from
    decode_or pair_address
search_lem_example =
    search_lem tallies lists context sdk protocols 56 lists-IsDocumented reply context-Answers
      (swap_token "||") (swap_token "|") "|||" "||" "|" [] tt tt tt factories _
      ((1, []) ∷ (2, ("|", 7) ∷ []) ∷ []) refl refl (omega arith) refl refl refl
