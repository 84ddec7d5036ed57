-- ===== src/PriceJob/MultiAmm.antt =====
-- src/scheduler-job/token-price-job/token-price-job.multi.amm.service.ts: the price of a pair's token by one
-- of its tokens that has a price of its own.
use blockchain_task_server.Common.{
  ℕ, Bool, true, false, Option, none, some, List, [], ◌∷◌, map, if◌then◌else◌,
}
use blockchain_task_server.Effects.{
  Result, ok, err, Action, from_result, ◌>>=◌, map_result, then_result,
}
use blockchain_task_server.Lodash.{Lodash}
use blockchain_task_server.Arrays.{flat}
use blockchain_task_server.BigNumber.{BigNumberLib, number, big, text, mul, div, is_zero, to_fixed}
use blockchain_task_server.Contracts.{Call, Reply}
use blockchain_task_server.Template.Pair.Data.{type_error, zero_address}
use blockchain_task_server.PriceJob.Params.{
  PriceToken, PairToken, PriceParam, Erc20Calls, zero_big, amount_of, params_at,
}

-- A pair's token with `token.keyPair`.
pub record Keyed : Type 0 where
  pub token : PairToken
  pub key_pair : Option PriceToken

abbrev pub has_price_address : PriceToken → Bool
has_price_address t = elim t.price_address [ none ↦ false | some a ↦ true ]

-- `price_value` of both tokens is read before they are tested for null.
unfoldable pub find_key_pair : Option PriceToken → Option PriceToken → Result (Option PriceToken)
find_key_pair (some t0) (some t1) =
    ok (if has_price_address t0 then some t0 else if has_price_address t1 then some t1 else none)
find_key_pair _ _ = err type_error

unfoldable pub keyed : PairToken → Result Keyed
unfolding find_key_pair
keyed token =
    then_result (find_key_pair token.pair0 token.pair1)
      λ k. ok (record { token = token; key_pair = k })

module _ {S B : Type 0} (lib : BigNumberLib B) (lodash : Lodash) (calls : Erc20Calls S) where
  -- The two encoded calls for a token and its key token.
  abbrev pub calls_for : PairToken → Option PriceToken → List Call
  calls_for token none = (zero_address, zero_address) ∷ (zero_address, zero_address) ∷ []
  calls_for token (some k) =
      (token.address, calls.encode_total_supply)
      ∷ (k.address, calls.encode_balance_of token.address)
      ∷ []

  unfoldable pub multi_calls : Keyed → List Call
  multi_calls x = calls_for x.token x.key_pair

  -- The arithmetic of a token, on the two amounts.
  unfoldable pub multi_value : PairToken → PriceToken → B → B → PriceParam
  multi_value token k supply balance =
      let total_value = mul lib (big (mul lib (big balance) (text k.price_value))) (number 2) in
      let value =
        if is_zero lib (big supply) then zero_big lib else div lib (big total_value) (big supply) in
      record {
        id = token.id;
        price_value = to_fixed lib (big value) 20;
        total_supply = lib.to_string supply;
      }

  -- The replies of a token. Both amounts take the decimals of the pair's token.
  unfoldable pub multi_param : Keyed → Option (List Reply) → Result (Option PriceParam)
  unfolding amount_of multi_value
  multi_param x replies = elim x.key_pair [
    | none ↦ ok none
    | some k ↦ elim replies [
      | some (supply ∷ balance ∷ rest) ↦
          then_result (amount_of lib calls.decode_total_supply x.token.decimals supply) λ s.
            then_result (amount_of lib calls.decode_balance_of x.token.decimals balance)
              λ b. ok (some (multi_value x.token k s b))
      | _ ↦ err type_error
    ]
  ]

  unfoldable pub crawl_multi : ℕ → List PairToken → Action S (List PriceParam)
  unfolding keyed map_result flat multi_calls multi_param params_at
  crawl_multi chain_id tokens = do
    xs ← from_result (map_result keyed tokens)
    replies ← calls.aggregate chain_id (flat (map multi_calls xs))
    from_result (params_at multi_param xs (lodash.chunk replies 2))
