-- ===== src/PriceJob/ChainLink.antt =====
-- src/scheduler-job/token-price-job/token-price-job.single.chainlink.service.ts: the price of a token by its
-- feed.
use blockchain_task_server.Common.{
  ℕ, String, Option, none, some, List, [], ◌∷◌, ◌||◌, map, if◌then◌else◌,
}
use blockchain_task_server.Effects.{Result, ok, err, Action, from_result, ◌>>=◌, push_result}
use blockchain_task_server.BigNumber.{BigNumberLib, number, big, is_zero, to_fixed}
use blockchain_task_server.BigNumber.Decimals.{divide_decimals}
use blockchain_task_server.Template.Pair.Data.{type_error}
use blockchain_task_server.PriceJob.Params.{PriceParam}

-- The columns of a token that the job reads: its feed is known.
pub record FeedToken : Type 0 where
  pub id : ℕ
  pub address : String
  pub decimals : ℕ
  pub price_address : String

pub record FeedData : Type 0 where
  pub answer : ℕ
  pub decimals : ℕ

-- The batch calls on a network.
pub record FeedCalls (S : Type 0) : Type 0 where
  pub get_batch_erc20_total_supply : ℕ → List String → Action S (List ℕ)
  pub get_batch_chain_link_data : ℕ → List String → Action S (List FeedData)

module _ {S B : Type 0} (lib : BigNumberLib B) (c : FeedCalls S) where
  unfoldable pub feed_value : FeedToken → FeedData → ℕ → PriceParam
  unfolding divide_decimals
  feed_value token feed supply = record {
    id = token.id;
    price_value = to_fixed lib (big (divide_decimals lib (number feed.answer) feed.decimals)) 20;
    total_supply = lib.to_string (divide_decimals lib (number supply) token.decimals);
  }

  -- The rest of the callback behind its test; a supply behind the end is `undefined`.
  unfoldable pub feed_rest : FeedToken → FeedData → List ℕ → Result (Option PriceParam)
  unfolding feed_value
  feed_rest token feed [] = err type_error
  feed_rest token feed (supply ∷ supplies) = ok (some (feed_value token feed supply))

  unfoldable pub feed_param : FeedToken → List FeedData → List ℕ → Result (Option PriceParam)
  unfolding feed_rest
  feed_param token [] supplies = err type_error
  feed_param token (feed ∷ feeds) supplies =
      if is_zero lib (number feed.answer) || is_zero lib (number feed.decimals)
      then ok none
      else feed_rest token feed supplies

  abbrev behind : {A : Type 0} → List A → List A
  behind [] = []
  behind (x ∷ xs) = xs

  -- The callback on each token with the answers at its index.
  unfoldable pub feed_params : List FeedToken → List FeedData → List ℕ → Result (List PriceParam)
  unfolding feed_param
  feed_params [] feeds supplies = ok []
  feed_params (token ∷ tokens) feeds supplies =
      push_result (feed_param token feeds supplies)
        (feed_params tokens (behind feeds) (behind supplies))

  unfoldable pub crawl_feeds : ℕ → List FeedToken → Action S (List PriceParam)
  unfolding feed_params
  crawl_feeds chain_id tokens = do
    supplies ← c.get_batch_erc20_total_supply chain_id (map (λ (t : FeedToken). t.address) tokens)
    feeds ← c.get_batch_chain_link_data chain_id (map (λ (t : FeedToken). t.price_address) tokens)
    from_result (feed_params tokens feeds supplies)
