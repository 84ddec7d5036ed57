-- ===== src/Tests/Wallets.antt =====
-- The tokens of a wallet, the prices by feeds, and the answers to errors.
use blockchain_task_server.Common.{
  ℕ, String, true, some, List, [], ◌∷◌, ◌≡◌, refl, map, str_eq, if◌then◌else◌,
}
use blockchain_task_server.Exceptions.{error}
use blockchain_task_server.Effects.{ok, pure}
use blockchain_task_server.Arrays.{flat}
use blockchain_task_server.Lodash.Lists.{lists, lists-IsDocumented}
use blockchain_task_server.BigNumber.{is_zero, to_fixed}
use blockchain_task_server.Wallet.{
  WalletToken, WalletContext, get_wallet_token_balances, get_wallet_farm_infos,
}
use blockchain_task_server.Wallet.Held.{held_tokens, get_wallet_token_balances_lem}
use blockchain_task_server.PriceJob.ChainLink.{FeedToken, FeedCalls, crawl_feeds}
use blockchain_task_server.ExceptionFilter.{not_found, thrown, answer_of}
use blockchain_task_server.Tests.Samples.{tallies}

abbrev token : String → WalletToken
token address = record { address = address; decimals = 0; chain_id = 56 }

abbrev balance : ℕ → String → ℕ
balance chain_id address = if str_eq address "b" then 0 else 7

abbrev grouped : List WalletToken → List (ℕ × List WalletToken)
grouped [] = []
grouped (t ∷ ts) = (56, t ∷ ts) ∷ []

abbrev context : WalletContext (Unit {0}) ℕ ℕ (Unit {0})
context = record {
  find_interaction_addresses = λ wallet. pure ("a" ∷ "b" ∷ "c" ∷ []);
  search_tokens = λ addresses. pure (map token addresses);
  group_by_chain_id = grouped;
  get_batch_erc20_token_balances =
      λ chain_id wallet addresses. pure (map (balance chain_id) addresses);
  search_farm_addresses = pure ("f" ∷ []);
  find_interactions_with = λ wallet addresses. pure addresses;
  search_farms = λ addresses. pure (1 ∷ 2 ∷ []);
  group_by_protocol_id = λ farms. (5, farms) ∷ (6, []) ∷ [];
  get_wallet_farms = λ id farms wallet. pure farms;
  is_empty = λ params. true;
  search_nf_protocols = λ params. pure [];
  nf_protocols = pure (5 ∷ []);
  get_wallet_nf_tokens = λ id wallet params. pure (id ∷ []);
  search_lending_protocols = λ params. pure [];
  lending_protocols = pure (5 ∷ []);
  get_wallet_lendings = λ id wallet params. pure (id ∷ []);
}

get_wallet_token_balances_example :
    (get_wallet_token_balances tallies lists context "w" tt).0
    ≡ ok (
        flat (
          map
            (λ (chain_id, ts).
              held_tokens tallies lists lists-IsDocumented context "w" balance chain_id ts)
            (grouped (token "a" ∷ token "b" ∷ token "c" ∷ []))))
get_wallet_token_balances_example =
    get_wallet_token_balances_lem tallies lists lists-IsDocumented context "w" balance
      (λ chain_id addresses s. (s, refl)) "a" ("b" ∷ "c" ∷ [])
      (token "a" ∷ token "b" ∷ token "c" ∷ []) tt tt tt refl refl refl

-- Each protocol's farms are a list of their own, and an empty one is left out.
farms_nested : (get_wallet_farm_infos tallies lists context "w" tt).0 ≡ ok ((1 ∷ 2 ∷ []) ∷ [])
unfolding get_wallet_farm_infos
farms_nested = refl

abbrev feeds : FeedCalls (Unit {0})
feeds = record {
  get_batch_erc20_total_supply = λ chain_id addresses. pure (9 ∷ 8 ∷ []);
  get_batch_chain_link_data = λ chain_id addresses.
      pure ((record { answer = 0; decimals = 1 }) ∷ (record { answer = 30; decimals = 1 }) ∷ []);
}

abbrev feed_token : ℕ → FeedToken
feed_token id = record { id = id; address = "a"; decimals = 0; price_address = "p" }

-- The token without an answer is left out.
crawl_feeds_skips :
    (crawl_feeds tallies feeds 56 (feed_token 1 ∷ feed_token 2 ∷ []) tt).0
    ≡ ok ((record { id = 2; price_value = "|||"; total_supply = "||||||||" }) ∷ [])
unfolding crawl_feeds is_zero to_fixed
crawl_feeds_skips = refl

answers :
    map (λ r. (answer_of r).status) (not_found ∷ thrown (error (some "secret")) ∷ [])
    ≡ 404 ∷ 500 ∷ []
unfolding answer_of
answers = refl
