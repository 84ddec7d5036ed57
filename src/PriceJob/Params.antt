-- ===== src/PriceJob/Params.antt =====
-- What the price template and its jobs pass around, and what they share.
use blockchain_task_server.Common.{ℕ, String, Option, none, some, List, [], ◌∷◌}
use blockchain_task_server.Effects.{Result, ok, Action, then_result, push_result}
use blockchain_task_server.BigNumber.{BigNumberLib, number, to_big_number}
use blockchain_task_server.BigNumber.Decimals.{divide_decimals}
use blockchain_task_server.Contracts.{Call, Reply, decode_or}

-- The columns of a token that the jobs read. `price_value` is never null.
pub record PriceToken : Type 0 where
  pub id : ℕ
  pub chain_id : ℕ
  pub address : String
  pub decimals : ℕ
  pub price_value : String
  pub price_address : Option String

-- The columns of a pair's token; a pair may have lost a token.
pub record PairToken : Type 0 where
  pub id : ℕ
  pub address : String
  pub decimals : ℕ
  pub total_supply : String
  pub price_value : String
  pub pair0 : Option PriceToken
  pub pair1 : Option PriceToken

-- An element of `updateParams`: the token's id and its values.
pub record PriceParam : Type 0 where
  pub id : ℕ
  pub price_value : String
  pub total_supply : String

-- The multicall contract on a network, and ethers' encoding and decoding.
pub record Erc20Calls (S : Type 0) : Type 0 where
  pub aggregate : ℕ → List Call → Action S (List Reply)
  pub encode_total_supply : String
  pub encode_balance_of : String → String
  pub decode_total_supply : String → Result ℕ
  pub decode_balance_of : String → Result ℕ

module _ {B : Type 0} (lib : BigNumberLib B) where
  -- `ZERO` of libs/helper/src/constant.ts
  abbrev pub zero_big : B
  zero_big = to_big_number lib (number 0)

  -- The decoded amount of a reply behind the decimals, or zero.
  unfoldable pub amount_of : (String → Result ℕ) → ℕ → Reply → Result B
  unfolding decode_or divide_decimals
  amount_of decode decimals =
      decode_or
        (λ text. then_result (decode text) (λ n. ok (divide_decimals lib (number n) decimals)))
        zero_big

-- The head and the tail of an array that is read at increasing indices.
abbrev first_item : {A : Type 0} → List A → Option A
first_item [] = none
first_item (x ∷ xs) = some x

abbrev other_items : {A : Type 0} → List A → List A
other_items [] = []
other_items (x ∷ xs) = xs

-- The loops over the tokens, each with the chunk of replies at its index.
unfoldable pub params_at :
    {X : Type 0}
    → (X → Option (List Reply) → Result (Option PriceParam))
    → List X
    → List (List Reply)
    → Result (List PriceParam)
params_at param [] chunks = ok []
params_at param (x ∷ xs) chunks =
    push_result (param x (first_item chunks)) (params_at param xs (other_items chunks))
