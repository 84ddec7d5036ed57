-- ===== src/Defi/Venus/Borrowed.antt =====
-- What becomes of the borrowed amount where a reply has no data.
use blockchain_task_server.Common.{
  String, Bool, true, false, ◌&&◌, Option, List, [], ◌∷◌, ◌++◌, ◌≡◌, ◌≢◌, inl, inr, refl, sym, ◌∙◌,
  map,
}
use blockchain_task_server.Exceptions.{Thrown}
use blockchain_task_server.Effects.{Result, ok, err, collect, then_result}
use blockchain_task_server.Lodash.{Lodash, IsDocumented}
use blockchain_task_server.Arrays.{flat}
use blockchain_task_server.BigNumber.{BigNumberLib}
use blockchain_task_server.Contracts.{Call, Reply, Answers, is_null_bytes}
use blockchain_task_server.Contracts.Results.{then_result-throws, push_result-ok}
use blockchain_task_server.Defi.Venus.{
  VenusContext, VenusLending, WalletLending, wallet_info, wallet_calls, borrow_balance, number_of,
  get_lending_wallet_info,
}
use blockchain_task_server.Defi.Venus.Aligned.{lending_by_answers, get_lending_wallet_info_lem}

and_false : (b : Bool) → b && false ≡ false
and_false true = refl
and_false false = refl

-- A loop over the items that throws at one of them returns nothing.
collect-throws :
    {A B : Type 0} (f : A → Result (Option B)) (before : List A) (x : A) (after : List A)
    → ((o : Option B) → f x ≢ ok o)
    → (out : List B) → collect f (before ++ (x ∷ after)) ≢ ok out
unfolding collect
collect-throws f [] x after throws out e = elim (push_result-ok (f x) (collect f after) out e) [
  | inl (here, rest) ↦ throws _ here
  | inr (b, bs, here, rest, same) ↦ throws _ here
]
collect-throws f (y ∷ before) x after throws out e =
    elim (push_result-ok (f y) (collect f (before ++ (x ∷ after))) out e) [
      | inl (here, rest) ↦ collect-throws f before x after throws out rest
      | inr (b, bs, here, rest, same) ↦ collect-throws f before x after throws bs rest
    ]

refused :
    {A C : Type 0} (r : Result A) (f : A → Result C) (o : C) {z : Thrown}
    → r ≡ err z
    → then_result r f ≢ ok o
refused (ok a) f o thrown e = cc
refused (err y) f o thrown e = cc

module _ {S P B : Type 0} (lib : BigNumberLib B) (lodash : Lodash) (c : VenusContext S P) where
  borrow_balance-without_rate :
      (exchange borrow : Reply)
      → is_null_bytes exchange.return_data ≡ true
      → borrow_balance lib lodash c exchange borrow ≡ ok 0
  unfolding borrow_balance
  borrow_balance-without_rate exchange borrow e = rw (e, and_false borrow.success) refl

  -- If the reply to the call for the exchange rate has no data, then what the wallet has in the lending does
  -- not depend on the reply to the call for the borrowed amount.
  pub wallet_info-without_rate :
      (lending : VenusLending) (balance_of exchange borrow other_borrow : Reply)
      → is_null_bytes exchange.return_data ≡ true
      → wallet_info lib lodash c lending balance_of exchange borrow
        ≡ wallet_info lib lodash c lending balance_of exchange other_borrow
  unfolding wallet_info
  wallet_info-without_rate lending balance_of exchange borrow other_borrow e =
      rw
        (
          borrow_balance-without_rate exchange borrow e,
          borrow_balance-without_rate exchange other_borrow e,
        )
        refl

  module _ (z : Thrown) (undecodable : c.decode_number "borrowBalanceStored" "0x" ≡ err z) where
    borrow_balance-throws :
        (exchange borrow : Reply)
        → is_null_bytes exchange.return_data ≡ false
        → borrow.success ≡ true
        → borrow.return_data ≡ "0x"
        → borrow_balance lib lodash c exchange borrow ≡ err z
    unfolding borrow_balance
    borrow_balance-throws exchange borrow rate success empty = rw (rate, success, empty) undecodable

    wallet_info-throws :
        (lending : VenusLending) (balance_of exchange borrow : Reply)
        → is_null_bytes exchange.return_data ≡ false
        → borrow.success ≡ true
        → borrow.return_data ≡ "0x"
        → (o : Option WalletLending)
        → wallet_info lib lodash c lending balance_of exchange borrow ≢ ok o
    unfolding wallet_info
    wallet_info-throws lending balance_of exchange borrow rate success empty o =
        then_result-throws (number_of lib lodash c "balanceOf" balance_of) _ o λ balance.
          then_result-throws (number_of lib lodash c "exchangeRateStored" exchange) _ o λ rates.
            refused (borrow_balance lib lodash c exchange borrow) _ o
              (borrow_balance-throws exchange borrow rate success empty)

    module _ (documented : IsDocumented lodash) (answer : S → Call → Reply)
        (answers : Answers c.aggregate answer) where
      -- If the contract of one of the lendings answers the call for the exchange rate with data and the call
      -- for the borrowed amount with none, and the decoder refuses empty data, then the lendings of the
      -- wallet are not returned at all, whatever the other contracts answer.
      pub get_lending_wallet_info-throws :
          (before : List VenusLending) (lending : VenusLending) (after : List VenusLending)
          (wallet : String) (s : S) (replies : List Reply)
          → is_null_bytes
              (answer s (lending.address, c.encode_v_token "exchangeRateStored" [])).return_data
            ≡ false
          → (answer s
              (lending.address, c.encode_v_token "borrowBalanceStored" (wallet ∷ []))).success
            ≡ true
          → (answer s
              (lending.address, c.encode_v_token "borrowBalanceStored" (wallet ∷ []))).return_data
            ≡ "0x"
          → (c.aggregate
              (flat (map (wallet_calls lib lodash c wallet) (before ++ (lending ∷ after))))
              s).0
            ≡ ok replies
          → (out : List WalletLending)
          → (get_lending_wallet_info lib lodash c (before ++ (lending ∷ after)) wallet s).0 ≢ ok out
      get_lending_wallet_info-throws before lending after wallet s replies rate success empty e out
            r =
          collect-throws (lending_by_answers lib lodash documented c answer answers s wallet) before
            lending after (λ o. wallet_info-throws lending _ _ _ rate success empty o) out
            (sym (
                get_lending_wallet_info_lem lib lodash documented c answer answers
                  (before ++ (lending ∷ after)) wallet s replies e)
              ∙ r)
