-- ===== src/PriceJob/SingleAmm.antt =====
-- src/scheduler-job/token-price-job/token-price-job.single.amm.service.ts: the price of a token by its pair
-- with the highest liquidity.
use blockchain_task_server.Common.{
  ℕ, String, Option, none, some, List, [], ◌∷◌, map, ◌==◌, if◌then◌else◌,
}
use blockchain_task_server.Effects.{
  Result, ok, err, Action, from_result, ◌>>=◌, map_each, then_result,
}
use blockchain_task_server.Lodash.{Lodash}
use blockchain_task_server.Arrays.{flat}
use blockchain_task_server.BigNumber.{BigNumberLib, big, text, mul, div, is_greater_than, to_fixed}
use blockchain_task_server.Contracts.{Call, Reply}
use blockchain_task_server.Template.Pair.Data.{type_error, zero_address}
use blockchain_task_server.PriceJob.Params.{
  PriceToken, PairToken, PriceParam, Erc20Calls, zero_big, amount_of, params_at,
}

-- A token with `token.other`, the other token of its best pair, and the pair's address.
pub record Prepared : Type 0 where
  pub token : PriceToken
  pub other : Option (PriceToken × String)

module _ {S B : Type 0} (lib : BigNumberLib B) (lodash : Lodash) (calls : Erc20Calls S)
    (find_configured_pairs : PriceToken → Action S (List PairToken)) where
  unfoldable pub liquidity_of : PairToken → B
  unfolding mul
  liquidity_of pair = mul lib (text pair.total_supply) (text pair.price_value)

  -- The callback of the `forEach`, on `bestPair` and `maxLiquidity`.
  unfoldable pub keep_higher : Option PairToken × B → PairToken → Option PairToken × B
  unfolding liquidity_of is_greater_than
  keep_higher (best, max) pair =
      if is_greater_than lib (big (liquidity_of pair)) (big max)
      then (some pair, liquidity_of pair)
      else (best, max)

  unfoldable pub highest_from : Option PairToken × B → List PairToken → Option PairToken × B
  unfolding keep_higher
  highest_from best [] = best
  highest_from best (pair ∷ pairs) = highest_from (keep_higher best pair) pairs

  unfoldable pub find_highest_liquidity_pair : List PairToken → Option PairToken
  unfolding highest_from
  find_highest_liquidity_pair pairs = (highest_from (none, zero_big lib) pairs).0

  -- The token of the pair that is not the given one; `pair0.id` and `otherToken.address` are read.
  unfoldable pub other_of : PriceToken → PairToken → Result PriceToken
  other_of token pair = elim pair.pair0 [
    | none ↦ err type_error
    | some t0 ↦
        if t0.id == token.id
        then elim pair.pair1 [ none ↦ err type_error | some t1 ↦ ok t1 ]
        else ok t0
  ]

  unfoldable pub prepare_pair : PriceToken → Option PairToken → Result Prepared
  unfolding other_of
  prepare_pair token none = ok (record { token = token; other = none })
  prepare_pair token (some pair) =
      then_result (other_of token pair)
        λ o. ok (record { token = token; other = some (o, pair.address) })

  unfoldable pub prepare : PriceToken → Action S Prepared
  unfolding find_highest_liquidity_pair prepare_pair
  prepare token = do
    pairs ← find_configured_pairs token
    from_result (prepare_pair token (find_highest_liquidity_pair pairs))

  -- The three encoded calls for a token and its other token.
  abbrev pub calls_for : PriceToken → Option (PriceToken × String) → List Call
  calls_for token none =
      (token.address, calls.encode_total_supply) ∷ (zero_address, "0x") ∷ (zero_address, "0x") ∷ []
  calls_for token (some (o, pair_address)) =
      (token.address, calls.encode_total_supply)
      ∷ (token.address, calls.encode_balance_of pair_address)
      ∷ (o.address, calls.encode_balance_of pair_address)
      ∷ []

  unfoldable pub single_calls : Prepared → List Call
  single_calls x = calls_for x.token x.other

  -- The arithmetic of a token, on the three amounts.
  unfoldable pub single_value : PriceToken → PriceToken → B → B → B → PriceParam
  single_value token o supply balance other_balance =
      let other_value = mul lib (big other_balance) (text o.price_value) in
      record {
        id = token.id;
        price_value = to_fixed lib (big (div lib (big other_value) (big balance))) 20;
        total_supply = lib.to_string supply;
      }

  -- The replies of a token, which are destructured where its other token is known.
  unfoldable pub single_param : Prepared → Option (List Reply) → Result (Option PriceParam)
  unfolding amount_of single_value
  single_param x replies = elim x.other [
    | none ↦ ok none
    | some (o, pair_address) ↦ elim replies [
      | some (supply ∷ balance ∷ other_balance ∷ rest) ↦
          then_result (amount_of lib calls.decode_total_supply x.token.decimals supply) λ s.
            then_result (amount_of lib calls.decode_balance_of x.token.decimals balance) λ b.
              then_result (amount_of lib calls.decode_balance_of o.decimals other_balance)
                λ ob. ok (some (single_value x.token o s b ob))
      | _ ↦ err type_error
    ]
  ]

  unfoldable pub crawl_single : ℕ → List PriceToken → Action S (List PriceParam)
  unfolding prepare map_each flat single_calls single_param params_at
  crawl_single chain_id tokens = do
    prepared ← map_each prepare tokens
    replies ← calls.aggregate chain_id (flat (map single_calls prepared))
    from_result (params_at single_param prepared (lodash.chunk replies 3))
