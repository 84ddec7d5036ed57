-- ===== src/Tests/Services.antt =====
-- The services of PancakeSwap and of ApeSwap on Polygon over replies by a table.
use blockchain_task_server.Common.{
  ℕ, String, true, ◌<>◌, [], ◌∷◌, ◌≡◌, ◌≢◌, refl, map, eq_iff, arith,
}
use blockchain_task_server.Effects.{ok, pure, from_result, ◌>>=◌}
use blockchain_task_server.Lodash.Lists.{lists}
use blockchain_task_server.BigNumber.{number, is_zero}
use blockchain_task_server.BigNumber.Decimals.{divide_decimals}
use blockchain_task_server.Contracts.{Call, Reply, Answers}
use blockchain_task_server.FarmJob.Yields.{FarmToken}
use blockchain_task_server.Defi.FarmWallet.{Farm}
use blockchain_task_server.Defi.PancakeSwap.{NfContract, PancakeContext, nf_wallet_info}
use blockchain_task_server.Defi.PancakeSwap.Tokens.{answered, searched, nf_wallet_info_lem}
use blockchain_task_server.Defi.ApeSwapMatic.{ApeMaticContext, RewardedFarm, rewarded_farm}
use blockchain_task_server.Defi.ApeSwapMatic.Sorted.{rewarded_farm-swapped}
use blockchain_task_server.Tests.Samples.{tallies, tally, count}

-- Every call returns its own encoding.
abbrev reply : Unit {0} → Call → Reply
reply _ call = record { success = true; return_data = call.1 }

abbrev nf : String → NfContract
nf address = record {
  address = address;
  encode_token_of_owner_by_index = λ wallet index. tally index <> wallet;
  decode_token_of_owner_by_index = λ text. ok (count text);
}

-- A query is a text, and an NFT is its index as a text.
abbrev pancake : PancakeContext (Unit {0}) String String
pancake = record {
  farm_name = "FARM";
  farm2_name = "FARM2";
  farm_address = "f";
  amm_factory_address = "g";
  nf_token = nf "n";
  nf_token2 = nf "o";
  nf_token3 = nf "p";
  nf_token4 = nf "q";
  nf_token5 = nf "r";
  aggregate = λ calls. pure (map (reply tt) calls);
  encode_pool_info = tally;
  encode_all_pairs = tally;
  encode_user_info = λ pid wallet. tally pid;
  encode_pending_cake = λ pid wallet. tally pid;
  encode_farm2_user_info = λ wallet. wallet;
  encode_farm2_pending_reward = λ wallet. wallet;
  decode_pool_info = λ text. ok (record { lp_token = text; alloc_point = 1 });
  decode_all_pairs = λ text. ok text;
  decode_user_amount = λ text. ok (count text);
  decode_pending_cake = λ text. ok (count text);
  decode_farm2_user_amount = λ text. ok (count text);
  decode_farm2_pending_reward = λ text. ok (count text);
  get_safe_erc721_balance_of = λ address wallet. pure 3;
  find_interaction_addresses = λ wallet addresses. pure addresses;
  search = λ params address indexes. pure indexes;
  to_lower = λ text. text;
}

pancake-Answers : Answers pancake.aggregate reply
pancake-Answers calls s replies e = cc

nf_wallet_info_example :
    nf_wallet_info tallies lists pancake (nf "n") "||" "q" tt
    ≡ (from_result (answered tallies lists pancake reply pancake-Answers (nf "n") "||" "q" tt 3)
          >>= searched tallies lists pancake reply pancake-Answers (nf "n") "||" "q")
        tt
unfolding is_zero
nf_wallet_info_example =
    nf_wallet_info_lem tallies lists pancake reply pancake-Answers (nf "n") "||" "q" 3 tt tt tt _
      refl refl refl

abbrev banana : FarmToken
banana = record { address = "b"; symbol = "BANANA"; decimals = 1; price_value = "||" }

abbrev matic : FarmToken
matic = record { address = "c"; symbol = "MATIC"; decimals = 0; price_value = "||" }

abbrev ape : ApeMaticContext (Unit {0})
ape = record {
  farm_address = "f";
  farm2_address = "g";
  amm_factory_address = "h";
  token_address = "b";
  aggregate = λ calls. pure (map (reply tt) calls);
  get_farm_rewarder_reward_token = λ rewarder. pure "c";
  encode_pool_info = tally;
  encode_farm2_pool_info = tally;
  encode_all_pairs = tally;
  encode_lp_token = tally;
  encode_rewarder = tally;
  encode_user_info = λ pid wallet. tally pid;
  encode_pending_banana = λ pid wallet. tally pid;
  encode_pending_tokens = λ pid wallet. tally pid;
  decode_alloc_point = λ text. ok (count text);
  decode_farm2_pool_info = λ text. ok (record { want = text; strat = text });
  decode_all_pairs = λ text. ok text;
  decode_lp_token = λ text. ok text;
  decode_rewarder = λ text. ok text;
  decode_user_amount = λ text. ok (count text);
  decode_pending_banana = λ text. ok (count text);
  decode_pending_tokens = λ text. ok (count text);
  rewarder_of = λ json. ok json;
}

abbrev farm : Farm
farm = record {
  name = "FARM";
  address = "f";
  pid = 1;
  stake_tokens = matic ∷ [];
  reward_tokens = matic ∷ banana ∷ [];
  json = "r";
}

abbrev found : RewardedFarm ℕ
found = record {
  farm = farm;
  reward_tokens = (banana ∷ []) ∷ (matic ∷ []) ∷ [];
  stake_amount = 7 ∷ [];
  reward_amount = 50 ∷ 6 ∷ [];
}

apart : banana.address ≢ matic.address
apart e = absurd (ground (arith, e, eq_iff banana.address matic.address))

-- Five tokens of the exchange are returned as fifty, and 60 of the rewarder's as six.
rewarded_farm-swapped_example :
    (found.reward_tokens ≡ (banana ∷ []) ∷ (matic ∷ []) ∷ [])
    × (found.reward_amount
        ≡ divide_decimals tallies (number 50) matic.decimals
          ∷ divide_decimals tallies (number 60) banana.decimals
          ∷ [])
unfolding rewarded_farm is_zero
rewarded_farm-swapped_example =
    rewarded_farm-swapped tallies lists ape farm banana matic 7 50 60 found refl refl apart refl
