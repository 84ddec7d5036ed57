-- ===== src/Tests/Defis.antt =====
-- The service of BiSwap over replies by a table.
use blockchain_task_server.Common.{ℕ, ◌<>◌, true, List, [], ◌∷◌, ◌≡◌, refl, map}
use blockchain_task_server.Effects.{ok, pure}
use blockchain_task_server.Lodash.Lists.{lists, lists-IsDocumented}
use blockchain_task_server.Contracts.{Call, Reply, Answers}
use blockchain_task_server.FarmJob.Yields.{FarmToken}
use blockchain_task_server.Defi.FarmWallet.{Farm, farm_by_farm, farm_wallet_info_lem}
use blockchain_task_server.Defi.BiSwap.{
  BiSwapContext, user_info_call, pending_call, get_farm_wallet_info,
}
use blockchain_task_server.Tests.Samples.{tallies, tally, count}

-- Every call returns its own encoding, but for "0x".
abbrev reply : Unit {0} → Call → Reply
reply _ call = record { success = true; return_data = call.1 }

abbrev context : BiSwapContext (Unit {0})
context = record {
  farm_address = "f";
  amm_factory_address = "g";
  aggregate = λ calls. pure (map (reply tt) calls);
  pool_length = pure 2;
  total_alloc_point = pure 4;
  bsw_per_block = pure 8;
  staking_percent = pure 3;
  percent_dec = pure 4;
  all_pairs_length = pure 2;
  encode_pool_info = tally;
  encode_all_pairs = tally;
  encode_user_info = λ pid wallet. tally pid <> wallet;
  encode_pending_bsw = λ pid wallet. tally pid;
  decode_pool_info = λ text. ok (record { lp_token = text; alloc_point = 1 });
  decode_all_pairs = λ text. ok text;
  decode_user_amount = λ text. ok (count text);
  decode_pending_bsw = λ text. ok (count text);
}

context-Answers : Answers context.aggregate reply
context-Answers calls s replies e = cc

abbrev token : FarmToken
token = record { address = "c"; symbol = "BSW"; decimals = 0; price_value = "" }

abbrev farm : ℕ → Farm
farm pid = record {
  name = "farm";
  address = "f";
  pid = pid;
  stake_tokens = token ∷ [];
  reward_tokens = token ∷ [];
  json = "";
}

abbrev farms : List Farm
farms = farm 3 ∷ farm 0 ∷ farm 5 ∷ []

farm_wallet_info_example :
    (get_farm_wallet_info tallies lists context farms "||" tt).0
    ≡ farm_by_farm tallies context.decode_user_amount context.decode_pending_bsw lists
        context.aggregate
        (user_info_call tallies lists context "||")
        (pending_call tallies lists context "||")
        lists-IsDocumented
        reply
        context-Answers
        tt
        farms
unfolding get_farm_wallet_info
farm_wallet_info_example =
    farm_wallet_info_lem tallies context.decode_user_amount context.decode_pending_bsw lists
      context.aggregate (user_info_call tallies lists context "||")
      (pending_call tallies lists context "||") lists-IsDocumented reply context-Answers farms tt _
      refl
