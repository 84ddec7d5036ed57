-- ===== src/Wallet.antt =====
-- src/wallet/wallet.service.ts: what a wallet holds, over the services and the multicall contract.
pub mod Held
use blockchain_task_server.Common.{
  ℕ, String, Bool, Option, none, some, List, [], ◌∷◌, map, if◌then◌else◌,
}
use blockchain_task_server.Effects.{
  Result, ok, err, Action, pure, from_result, ◌>>=◌, map_each, collect,
}
use blockchain_task_server.Lodash.{Lodash}
use blockchain_task_server.Arrays.{flat}
use blockchain_task_server.BigNumber.{BigNumberLib, number, is_zero}
use blockchain_task_server.BigNumber.Decimals.{divide_decimals}
use blockchain_task_server.Template.Pair.Data.{type_error}

-- The columns of a token that the service reads.
pub record WalletToken : Type 0 where
  pub address : String
  pub decimals : ℕ
  pub chain_id : ℕ

-- A token with `wallet.balance`.
pub record TokenBalance : Type 0 where
  pub token : WalletToken
  pub balance : String

-- The services, with the query of the request, and `_.groupBy` with its keys in their order. `F` is the
-- type of the farms, `I` that of the items of an exchange, and `P` that of the query.
pub record WalletContext (S F I P : Type 0) : Type 0 where
  pub find_interaction_addresses : String → Action S (List String)
  pub search_tokens : List String → Action S (List WalletToken)
  pub group_by_chain_id : List WalletToken → List (ℕ × List WalletToken)
  pub get_batch_erc20_token_balances : ℕ → String → List String → Action S (List ℕ)
  pub search_farm_addresses : Action S (List String)
  pub find_interactions_with : String → List String → Action S (List String)
  pub search_farms : List String → Action S (List F)
  pub group_by_protocol_id : List F → List (ℕ × List F)
  pub get_wallet_farms : ℕ → List F → String → Action S (List I)
  -- The ids of the protocols that fit the query, or that have lendings or tokens, and the calls of their
  -- services.
  pub is_empty : P → Bool
  pub search_nf_protocols : P → Action S (List ℕ)
  pub nf_protocols : Action S (List ℕ)
  pub get_wallet_nf_tokens : ℕ → String → P → Action S (List I)
  pub search_lending_protocols : P → Action S (List ℕ)
  pub lending_protocols : Action S (List ℕ)
  pub get_wallet_lendings : ℕ → String → P → Action S (List I)

module _ {S F I P B : Type 0} (lib : BigNumberLib B) (lodash : Lodash)
    (c : WalletContext S F I P) where
  unfoldable pub token_balance : WalletToken → ℕ → TokenBalance
  unfolding divide_decimals
  token_balance token balance = record {
    token = token;
    balance = lib.to_string (divide_decimals lib (number balance) token.decimals);
  }

  -- The callback on a token with its balance, either of which `zip` may have padded.
  unfoldable pub held : Option WalletToken × Option ℕ → Result (Option TokenBalance)
  unfolding token_balance
  held (some token, some balance) =
      ok (if is_zero lib (number balance) then none else some (token_balance token balance))
  held (none, some balance) = if is_zero lib (number balance) then ok none else err type_error
  held (_, none) = err type_error

  -- The tokens of a network.
  unfoldable pub chain_balances : String → ℕ × List WalletToken → Action S (List TokenBalance)
  unfolding held collect
  chain_balances wallet (chain_id, tokens) = do
    balances ←
        c.get_batch_erc20_token_balances chain_id wallet
          (map (λ (t : WalletToken). t.address) tokens)
    from_result (collect held (lodash.zip tokens balances))

  -- The rest behind each of the two searches.
  unfoldable pub balances_of : String → List WalletToken → Action S (List TokenBalance)
  unfolding chain_balances map_each flat
  balances_of wallet [] = pure []
  balances_of wallet (t ∷ ts) =
      map_each (chain_balances wallet) (c.group_by_chain_id (t ∷ ts)) >>= λ result.
      pure (flat result)

  unfoldable pub balances_at : String → List String → Action S (List TokenBalance)
  unfolding balances_of
  balances_at wallet [] = pure []
  balances_at wallet (a ∷ as') = c.search_tokens (a ∷ as') >>= balances_of wallet

  unfoldable pub get_wallet_token_balances : String → Action S (List TokenBalance)
  unfolding balances_at
  get_wallet_token_balances wallet = c.find_interaction_addresses wallet >>= balances_at wallet

  -- The outputs that are pushed, each a list.
  unfoldable pub pushed : List (List I) → List (List I)
  pushed [] = []
  pushed ([] ∷ xss) = pushed xss
  pushed ((x ∷ xs) ∷ xss) = (x ∷ xs) ∷ pushed xss

  unfoldable pub farms_of : String → List F → Action S (List (List I))
  unfolding map_each pushed
  farms_of wallet [] = pure []
  farms_of wallet (f ∷ fs) =
      map_each (λ (id, farms). c.get_wallet_farms id farms wallet) (c.group_by_protocol_id (f ∷ fs))
      >>= λ output. pure (pushed output)

  unfoldable pub farms_at : String → List String → Action S (List (List I))
  unfolding farms_of
  farms_at wallet [] = pure []
  farms_at wallet (a ∷ as') = c.search_farms (a ∷ as') >>= farms_of wallet

  unfoldable pub get_wallet_farm_infos : String → Action S (List (List I))
  unfolding farms_at
  get_wallet_farm_infos wallet = do
    addresses ← c.search_farm_addresses
    interactions ← c.find_interactions_with wallet addresses
    farms_at wallet interactions

  -- The calls of the services, whose results are flattened.
  unfoldable pub infos_of_services : (ℕ → Action S (List I)) → List ℕ → Action S (List I)
  unfolding map_each flat
  infos_of_services call ids = map_each call ids >>= λ result. pure (flat result)

  unfoldable pub get_wallet_nf_token_infos : String → P → Action S (List I)
  unfolding infos_of_services
  get_wallet_nf_token_infos wallet params = do
    ids ← (if c.is_empty params then c.nf_protocols else c.search_nf_protocols params)
    infos_of_services (λ id. c.get_wallet_nf_tokens id wallet params) ids

  unfoldable pub get_wallet_lending_infos : String → P → Action S (List I)
  unfolding infos_of_services
  get_wallet_lending_infos wallet params = do
    ids ← (if c.is_empty params then c.lending_protocols else c.search_lending_protocols params)
    infos_of_services (λ id. c.get_wallet_lendings id wallet params) ids
