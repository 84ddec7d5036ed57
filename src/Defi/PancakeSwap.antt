-- ===== src/Defi/PancakeSwap.antt =====
-- src/defi/pancake-swap/pancake-swap.bsc.service.ts: what it asks of its two kinds of farms, and of the five
-- contracts of its NFTs.
pub mod Tokens
use blockchain_task_server.Common.{
  ℕ, String, Bool, Option, none, some, List, [], ◌∷◌, ◌++◌, map, str_eq, if◌then◌else◌,
}
use blockchain_task_server.Effects.{Result, Action, pure, ◌>>=◌, map_each}
use blockchain_task_server.Lodash.{Lodash}
use blockchain_task_server.Arrays.{flat, fill_sequence_number, remove_null}
use blockchain_task_server.BigNumber.{BigNumberLib, number, is_zero}
use blockchain_task_server.Contracts.{Call, Reply}
use blockchain_task_server.Contracts.Infos.{batch_infos}
use blockchain_task_server.FarmJob.Yields.{FarmInfo}
use blockchain_task_server.Defi.FarmWallet.{Farm, WalletFarm, farm_wallet_info}

-- A contract of NFTs, with its encoded function and the decoded result.
pub record NfContract : Type 0 where
  pub address : String
  pub encode_token_of_owner_by_index : String → ℕ → String
  pub decode_token_of_owner_by_index : String → Result ℕ

-- The calls of the service, its encoded functions, and their decoded results; the services for
-- interactions and NFTs, with the query of the request. `N` is the type of an NFT, `P` that of a query.
pub record PancakeContext (S N P : Type 0) : Type 0 where
  pub farm_name : String
  pub farm2_name : String
  pub farm_address : String
  pub amm_factory_address : String
  pub nf_token : NfContract
  pub nf_token2 : NfContract
  pub nf_token3 : NfContract
  pub nf_token4 : NfContract
  pub nf_token5 : NfContract
  pub aggregate : List Call → Action S (List Reply)
  pub encode_pool_info : ℕ → String
  pub encode_all_pairs : ℕ → String
  pub encode_user_info : ℕ → String → String
  pub encode_pending_cake : ℕ → String → String
  pub encode_farm2_user_info : String → String
  pub encode_farm2_pending_reward : String → String
  pub decode_pool_info : String → Result FarmInfo
  pub decode_all_pairs : String → Result String
  pub decode_user_amount : String → Result ℕ
  pub decode_pending_cake : String → Result ℕ
  pub decode_farm2_user_amount : String → Result ℕ
  pub decode_farm2_pending_reward : String → Result ℕ
  pub get_safe_erc721_balance_of : String → String → Action S ℕ
  pub find_interaction_addresses : String → List String → Action S (List String)
  pub search : P → String → List String → Action S (List N)
  pub to_lower : String → String

-- `array.filter` on the name of a farm
unfoldable pub named : String → List Farm → List Farm
named name [] = []
named name (farm ∷ farms) =
    let rest = named name farms in if str_eq farm.name name then farm ∷ rest else rest

-- The items of a result, each of which is `undefined` where the `switch` has no case.
abbrev pub spread : {N : Type 0} → Option (List N) → List (Option N)
spread none = none ∷ []
spread (some ns) = map some ns

module _ {S N P B : Type 0} (lib : BigNumberLib B) (lodash : Lodash)
    (c : PancakeContext S N P) where
  unfoldable pub get_farm_infos : List ℕ → Action S (List (Option FarmInfo))
  unfolding batch_infos
  get_farm_infos =
      batch_infos c.aggregate (λ pid. (c.farm_address, c.encode_pool_info pid)) c.decode_pool_info

  -- The address of a pair, or none, where the code returns an empty array.
  unfoldable pub get_amm_factory_infos : List ℕ → Action S (List (Option String))
  unfolding batch_infos
  get_amm_factory_infos =
      batch_infos c.aggregate (λ pid. (c.amm_factory_address, c.encode_all_pairs pid))
        c.decode_all_pairs

  unfoldable pub get_farm_wallet_info : List Farm → String → Action S (List (WalletFarm B))
  unfolding farm_wallet_info
  get_farm_wallet_info farms wallet =
      farm_wallet_info lib c.decode_user_amount c.decode_pending_cake lodash c.aggregate
        (λ farm. (c.farm_address, c.encode_user_info farm.pid wallet))
        (λ farm. (c.farm_address, c.encode_pending_cake farm.pid wallet)) farms

  -- The calls to a farm that is a contract of its own.
  unfoldable pub get_farm2_wallet_info : List Farm → String → Action S (List (WalletFarm B))
  unfolding farm_wallet_info
  get_farm2_wallet_info farms wallet =
      farm_wallet_info lib c.decode_farm2_user_amount c.decode_farm2_pending_reward lodash
        c.aggregate (λ farm. (farm.address, c.encode_farm2_user_info wallet))
        (λ farm. (farm.address, c.encode_farm2_pending_reward wallet)) farms

  unfoldable pub get_wallet_farms : List Farm → String → Action S (List (WalletFarm B))
  unfolding get_farm_wallet_info get_farm2_wallet_info named
  get_wallet_farms farms wallet = do
    first ← get_farm_wallet_info (named c.farm_name farms) wallet
    second ← get_farm2_wallet_info (named c.farm2_name farms) wallet
    pure (first ++ second)

  abbrev pub owner_call : NfContract → String → ℕ → Call
  owner_call t wallet index = (t.address, t.encode_token_of_owner_by_index wallet index)

  -- The indexes of the NFTs that the wallet holds of a contract, and the rows for them.
  unfoldable pub get_held : NfContract → String → P → ℕ → Action S (List N)
  unfolding batch_infos remove_null
  get_held t wallet params balance =
      batch_infos c.aggregate (owner_call t wallet) t.decode_token_of_owner_by_index
        (fill_sequence_number balance 0)
      >>= λ ids. c.search params t.address (map lib.print_number (remove_null ids))

  -- What the wallet holds of a contract, the body of each of the five functions below.
  unfoldable pub nf_wallet_info : NfContract → String → P → Action S (List N)
  unfolding get_held
  nf_wallet_info t wallet params = c.get_safe_erc721_balance_of t.address wallet >>= λ balance.
      if is_zero lib (number balance) then pure [] else get_held t wallet params balance

  unfoldable pub get_nf_token_wallet_info : String → P → Action S (List N)
  unfolding nf_wallet_info
  get_nf_token_wallet_info = nf_wallet_info c.nf_token

  unfoldable pub get_nf_token2_wallet_info : String → P → Action S (List N)
  unfolding nf_wallet_info
  get_nf_token2_wallet_info = nf_wallet_info c.nf_token2

  unfoldable pub get_nf_token3_wallet_info : String → P → Action S (List N)
  unfolding nf_wallet_info
  get_nf_token3_wallet_info = nf_wallet_info c.nf_token3

  unfoldable pub get_nf_token4_wallet_info : String → P → Action S (List N)
  unfolding nf_wallet_info
  get_nf_token4_wallet_info = nf_wallet_info c.nf_token4

  unfoldable pub get_nf_token5_wallet_info : String → P → Action S (List N)
  unfolding nf_wallet_info
  get_nf_token5_wallet_info = nf_wallet_info c.nf_token5

  abbrev names : String → NfContract → Bool
  names address t = str_eq (c.to_lower address) (c.to_lower t.address)

  abbrev case_of : Action S (List N) → Action S (Option (List N))
  case_of m = m >>= λ ns. pure (some ns)

  -- The `switch` on an address.
  unfoldable pub nf_case : String → String → P → Action S (Option (List N))
  unfolding get_nf_token_wallet_info get_nf_token2_wallet_info get_nf_token3_wallet_info
      get_nf_token4_wallet_info get_nf_token5_wallet_info
  nf_case address wallet params =
      if names address c.nf_token
      then case_of (get_nf_token_wallet_info wallet params)
      else if names address c.nf_token2
      then case_of (get_nf_token2_wallet_info wallet params)
      else if names address c.nf_token3
      then case_of (get_nf_token3_wallet_info wallet params)
      else if names address c.nf_token4
      then case_of (get_nf_token4_wallet_info wallet params)
      else if names address c.nf_token5
      then case_of (get_nf_token5_wallet_info wallet params)
      else pure none

  abbrev pub nf_addresses : List String
  nf_addresses =
      c.nf_token.address ∷ c.nf_token2.address ∷ c.nf_token3.address ∷ c.nf_token4.address
      ∷ c.nf_token5.address ∷ []

  -- `getWalletNFTokens` on the addresses that it has found.
  unfoldable pub nf_tokens_at : List String → String → P → Action S (List (Option N))
  unfolding nf_case map_each flat
  nf_tokens_at [] wallet params = pure []
  nf_tokens_at (address ∷ addresses) wallet params = do
    results ← map_each (λ a. nf_case a wallet params) (address ∷ addresses)
    pure (flat (map spread results))

  unfoldable pub get_wallet_nf_tokens : String → P → Action S (List (Option N))
  unfolding nf_tokens_at
  get_wallet_nf_tokens wallet params =
      c.find_interaction_addresses wallet nf_addresses >>= λ addresses.
      nf_tokens_at addresses wallet params
