-- ===== src/Defi/Venus/Aligned.antt =====
-- The lendings of a wallet, against the answers to the calls for each lending.
use blockchain_task_server.Common.{String, Option, List, [], ◌∷◌, ◌≡◌, refl, map, arith}
use blockchain_task_server.Effects.{Result, ok, collect}
use blockchain_task_server.Lodash.{Lodash, IsDocumented}
use blockchain_task_server.Arrays.{flat}
use blockchain_task_server.BigNumber.{BigNumberLib}
use blockchain_task_server.Contracts.{Call, Reply, Answers}
use blockchain_task_server.Contracts.Batch.{batch-item_by_item}
use blockchain_task_server.Defi.Venus.{
  VenusContext, VenusLending, WalletLending, wallet_calls, wallet_info, zipped_info,
  get_lending_wallet_info,
}

module _ {S P B : Type 0} (lib : BigNumberLib B) (lodash : Lodash)
    (documented : IsDocumented lodash) (c : VenusContext S P) (answer : S → Call → Reply)
    (answers : Answers c.aggregate answer) where
  -- What the wallet has in a lending, by the answers to the three calls for this lending.
  abbrev pub lending_by_answers : S → String → VenusLending → Result (Option WalletLending)
  lending_by_answers s wallet lending =
      wallet_info lib lodash c lending
        (answer s (lending.address, c.encode_v_token "balanceOf" (wallet ∷ [])))
        (answer s (lending.address, c.encode_v_token "exchangeRateStored" []))
        (answer s (lending.address, c.encode_v_token "borrowBalanceStored" (wallet ∷ [])))

  -- If the batch call returns, the lendings of a wallet are what the answers for each lending say of this
  -- lending, for one lending after the other: no reply is read for another lending.
  pub get_lending_wallet_info_lem :
      (markets : List VenusLending) (wallet : String) (s : S) (replies : List Reply)
      → (c.aggregate (flat (map (wallet_calls lib lodash c wallet) markets)) s).0 ≡ ok replies
      → (get_lending_wallet_info lib lodash c markets wallet s).0
        ≡ collect (lending_by_answers s wallet) markets
  unfolding get_lending_wallet_info zipped_info wallet_calls
  get_lending_wallet_info_lem markets wallet s replies e =
      batch-item_by_item lodash documented c.aggregate answer answers
        (wallet_calls lib lodash c wallet) 3 (omega arith) (λ lending. refl)
        (zipped_info lib lodash c) markets s replies e
