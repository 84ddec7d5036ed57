-- ===== src/Swap/Search.antt =====
-- src/swap/swap.service.ts: `search`, which puts the parts of the service together.
use blockchain_task_server.Common.{
  ℕ, ◌<◌, String, Bool, Option, none, some, List, ◌≡◌, ap, map, length, if◌then◌else◌,
}
use blockchain_task_server.Effects.{
  Result, ok, err, Action, and_then, from_result, ◌>>=◌, map_result, collect, then_result,
}
use blockchain_task_server.Lodash.{Lodash, IsDocumented}
use blockchain_task_server.Arrays.{flat}
use blockchain_task_server.BigNumber.{BigNumberLib, text}
use blockchain_task_server.BigNumber.Decimals.{multiply_decimals}
use blockchain_task_server.Contracts.{Call, Reply, Answers}
use blockchain_task_server.Template.Pair.Data.{type_error}
use blockchain_task_server.Template.Pair.Addresses.{is_zero_address}
use blockchain_task_server.Swap.{get_all_currency_combinations, get_best_trade}
use blockchain_task_server.Swap.Protocols.{
  Factory, SwapContext, ProtocolMap, pair_address, reserve_call, get_protocol_with_factory_infos,
  get_protocol_pairs,
}
use blockchain_task_server.Swap.Offers.{offer_of, get_protocol_pairs_lem}

-- The columns of a token from which one of the SDK is built.
pub record TokenFields : Type 0 where
  pub address : String
  pub decimals : ℕ
  pub symbol : String
  pub name : String

-- A token with the one that wraps it, if there is one.
pub record SwapToken : Type 0 where
  pub fields : TokenFields
  pub wrapped : Option TokenFields

-- An element of the result, with the names of the tokens left out.
pub record Quote : Type 0 where
  pub protocol : ℕ
  pub input_amount : String
  pub output_amount : String

-- The SDK: a token on a network, the tests on tokens, an amount of a token, the first trade with at most so
-- many hops, which it refuses to look for among no pairs, the price of a trade, a price multiplied by one and
-- 50 in 10000, the comparison of prices, and what a trade returns; and the base tokens of the database.
pub record SearchContext (S A P R T F B : Type 0) : Type 0 where
  pub token_instance : ℕ → TokenFields → Result A
  pub find_base_tokens : Action S (List TokenFields)
  pub equals : A → A → Bool
  pub sorts_before : A → A → Bool
  pub from_raw_amount : A → B → Result R
  pub best_trade_exact_in : List P → R → A → ℕ → Result (Option T)
  pub execution_price : T → F
  pub with_minimum_delta : F → F
  pub less_than : F → F → Bool
  pub output_amount : T → String

-- A native token is traded as the one that wraps it.
unfoldable pub traded : SwapToken → Result TokenFields
unfolding is_zero_address
traded token =
    if is_zero_address token.fields.address
    then elim token.wrapped [ none ↦ err type_error | some w ↦ ok w ]
    else ok token.fields

module _ {S A P R T F B : Type 0} (lib : BigNumberLib B) (lodash : Lodash) (c : SwapContext S A P)
    (k : SearchContext S A P R T F B) (m : ProtocolMap) (chain_id : ℕ) where
  unfoldable pub get_in_output_token_instances : SwapToken → SwapToken → Result (A × A)
  unfolding traded
  get_in_output_token_instances input output = then_result (traded input) λ i.
      then_result (traded output) λ o.
        then_result (k.token_instance chain_id i)
          λ a. then_result (k.token_instance chain_id o) λ b. ok (a, b)

  unfoldable pub get_common_path_token_instances : Action S (List A)
  unfolding map_result
  get_common_path_token_instances =
      k.find_base_tokens >>= λ bases. from_result (map_result (k.token_instance chain_id) bases)

  -- The callback on an exchange with its pairs.
  unfoldable pub quote : SwapToken → String → A → A → ℕ × List P → Result (Option Quote)
  unfolding multiply_decimals get_best_trade
  quote input input_amount a b (protocol, pairs) =
      then_result
        (k.from_raw_amount a (multiply_decimals lib (text input_amount) input.fields.decimals))
        λ amount.
          then_result
            (get_best_trade k.execution_price k.with_minimum_delta k.less_than
              (λ hops. k.best_trade_exact_in pairs amount b hops))
            λ best. ok (elim best [
              | none ↦ none
              | some trade ↦ some (record {
                protocol = protocol;
                input_amount = input_amount;
                output_amount = k.output_amount trade;
              })
            ])

  abbrev pub combinations : A → A → List A → List (A × A)
  combinations = get_all_currency_combinations k.equals k.sorts_before

  unfoldable pub search : SwapToken → SwapToken → String → Action S (List Quote)
  unfolding get_in_output_token_instances get_common_path_token_instances quote collect
  search input output input_amount =
      from_result (get_in_output_token_instances input output) >>= λ (a, b).
      get_common_path_token_instances >>= λ common.
      get_protocol_pairs lodash c m chain_id (combinations a b common) >>= λ offers.
      from_result (collect (quote input input_amount a b) offers)

  after_offers :
      (f : ℕ × List P → Result (Option Quote)) (offers : List (ℕ × List P))
      (x : Result (List (ℕ × List P)) × S)
      → x.0 ≡ ok offers
      → (and_then x.0 (λ o. from_result (collect f o)) x.1).0 ≡ collect f offers
  after_offers f offers (ok o, s) e = let q : o ≡ offers = cc in ap (collect f) q
  after_offers f offers (err z, s) e = cc

  module _ (documented : IsDocumented lodash) (answer : S → Call → Reply)
      (answers : Answers (c.aggregate chain_id) answer) where
    -- If the tokens are built, there are pairs of them, the exchanges of the network are known, and the batch
    -- call returns, then `search` returns, for one exchange after the other, the quote of the trade that
    -- `getBestTrade` chooses through the pairs whose own addresses there have answered, and it throws where
    -- the choice does for one of the exchanges.
    pub search_lem :
        (input output : SwapToken) (input_amount : String) (a b : A) (common : List A) (s t u : S)
        (fs : List Factory) (replies : List Reply) (offers : List (ℕ × List P))
        → get_in_output_token_instances input output ≡ ok (a, b)
        → get_common_path_token_instances s ≡ (ok common, t)
        → 0 < length (combinations a b common)
        → get_protocol_with_factory_infos m chain_id ≡ ok fs
        → c.aggregate chain_id
            (map
              (reserve_call lodash c)
              (flat (map (λ f. map (pair_address lodash c f) (combinations a b common)) fs)))
            t
          ≡ (ok replies, u)
        → map_result (offer_of lodash c (answer t) (combinations a b common)) fs ≡ ok offers
        → (search input output input_amount s).0 ≡ collect (quote input input_amount a b) offers
    unfolding search
    search_lem input output input_amount a b common s t u fs replies offers built path positive
          known answered offered =
        rw (built, path)
          (after_offers (quote input input_amount a b) offers
            (get_protocol_pairs lodash c m chain_id (combinations a b common) t)
            ((get_protocol_pairs_lem lodash c (combinations a b common) documented answer m chain_id
                answers positive t u fs replies known answered offers).1
              offered))
