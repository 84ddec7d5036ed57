-- ===== src/Template/Pair/Infos.antt =====
-- `getTokenInfos` of pair.template.ts, whose two halves are the same code.
use blockchain_task_server.Common.{String, List, map}
use blockchain_task_server.Effects.{Result, ok, err, Action, pure, try_catch, ◌>>=◌, settle_each}
use blockchain_task_server.Template.Pair.Data.{
  TokenInfo, PairContext, unknown_string, unknown_uint256,
}

-- The info of a settled call.
unfoldable pub info_of : Result TokenInfo → TokenInfo
info_of (ok i) = i
info_of (err e) = record {
  name = unknown_string;
  symbol = unknown_string;
  decimals = unknown_uint256;
}

module _ {S : Type 0} (c : PairContext S) where
  unfoldable pub safe_infos : List String → Action S (List TokenInfo)
  unfolding info_of settle_each
  safe_infos addresses = do
    settled ← settle_each c.get_safe_erc20_token_info addresses
    pure (map info_of settled)

  unfoldable pub infos_of : List String → Action S (List TokenInfo)
  unfolding safe_infos
  infos_of addresses =
      try_catch (c.get_batch_erc20_token_infos addresses) (λ e. safe_infos addresses)

  unfoldable pub get_token_infos :
      List String → List String → Action S (List TokenInfo × List TokenInfo)
  unfolding infos_of
  get_token_infos multi single = do
    multi_infos ← infos_of multi
    single_infos ← infos_of single
    pure (multi_infos, single_infos)
