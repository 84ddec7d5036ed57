-- ===== src/Wallet/Held.antt =====
-- The balances of a wallet, token by token.
use blockchain_task_server.Common.{
  ℕ, String, some, List, [], ◌∷◌, ◌≡◌, refl, ap, ◌∙◌, map, Bool-cases, inl, inr, if◌then◌else◌,
}
use blockchain_task_server.Effects.{ok, map_each, collect, push_result}
use blockchain_task_server.Lodash.{Lodash, IsDocumented}
use blockchain_task_server.Arrays.{flat}
use blockchain_task_server.BigNumber.{BigNumberLib, number, is_zero}
use blockchain_task_server.Wallet.{
  WalletToken, TokenBalance, WalletContext, token_balance, held, chain_balances, balances_of,
  balances_at, get_wallet_token_balances,
}

module _ {S F I P B : Type 0} (lib : BigNumberLib B) (lodash : Lodash)
    (documented : IsDocumented lodash) (c : WalletContext S F I P) (wallet : String)
    (balance : ℕ → String → ℕ) where
  -- The tokens of a network that the wallet has something of, by the balance at each token's address.
  pub held_tokens : ℕ → List WalletToken → List TokenBalance
  held_tokens chain_id [] = []
  held_tokens chain_id (t ∷ ts) =
      let rest = held_tokens chain_id ts in
      if is_zero lib (number (balance chain_id t.address))
      then rest
      else token_balance lib lodash c t (balance chain_id t.address) ∷ rest

  -- The batch call returns the balance at each address.
  abbrev pub IsBalance : Type 0
  IsBalance =
      (chain_id : ℕ) (addresses : List String) (s : S)
      → (t : S) × (c.get_batch_erc20_token_balances chain_id wallet addresses s
          ≡ (ok (map (balance chain_id) addresses), t))

  held-held_tokens :
      (chain_id : ℕ) (tokens : List WalletToken)
      → collect
          (held lib lodash c)
          (lodash.zip tokens (map (balance chain_id) (map (λ (t : WalletToken). t.address) tokens)))
        ≡ ok (held_tokens chain_id tokens)
  unfolding held collect held_tokens
  held-held_tokens chain_id [] = ap (collect (held lib lodash c)) documented.zip_nil
  held-held_tokens chain_id (t ∷ ts) =
      let b = balance chain_id t.address in
      let rest = map (balance chain_id) (map (λ (u : WalletToken). u.address) ts) in
      ap (collect (held lib lodash c)) (documented.zip_cons t ts b rest)
      ∙ (ap (push_result (held lib lodash c (some t, some b))) (held-held_tokens chain_id ts)
          ∙ elim (Bool-cases (is_zero lib (number b))) [
            | inl nothing ↦ rw nothing refl
            | inr something ↦ rw something refl
          ])

  module _ (is_balance : IsBalance) where
    chain_balances-held :
        (group : ℕ × List WalletToken) (s : S)
        → (t : S) × (chain_balances lib lodash c wallet group s
            ≡ (ok (held_tokens group.0 group.1), t))
    unfolding chain_balances
    chain_balances-held (chain_id, tokens) s =
        let (t, e) = is_balance chain_id (map (λ (u : WalletToken). u.address) tokens) s in
        (t, rw e (ap (λ r. (r, t)) (held-held_tokens chain_id tokens)))

    all_balances :
        (groups : List (ℕ × List WalletToken)) (s : S)
        → (t : S) × (map_each (chain_balances lib lodash c wallet) groups s
            ≡ (ok (map (λ (chain_id, tokens). held_tokens chain_id tokens) groups), t))
    unfolding map_each
    all_balances [] s = (s, refl)
    all_balances (group ∷ groups) s =
        let (t, e) = chain_balances-held group s in
        let (u, f) = all_balances groups t in (u, rw (e, f) refl)

    balances_of-held :
        (tokens : List WalletToken) (s : S)
        → c.group_by_chain_id [] ≡ []
        → (balances_of lib lodash c wallet tokens s).0
          ≡ ok (flat (map (λ (chain_id, ts). held_tokens chain_id ts) (c.group_by_chain_id tokens)))
    unfolding balances_of flat
    balances_of-held [] s none_grouped = rw none_grouped refl
    balances_of-held (t ∷ ts) s none_grouped =
        let (u, e) = all_balances (c.group_by_chain_id (t ∷ ts)) s in rw e refl

    -- If the batch calls return the balance at each address, and the two searches find addresses and tokens,
    -- then the result holds, network by network, exactly those tokens that the wallet has something
    -- of, in their order and each with its own balance.
    pub get_wallet_token_balances_lem :
        (a : String) (addresses : List String) (tokens : List WalletToken) (s t u : S)
        → c.group_by_chain_id [] ≡ []
        → c.find_interaction_addresses wallet s ≡ (ok (a ∷ addresses), t)
        → c.search_tokens (a ∷ addresses) t ≡ (ok tokens, u)
        → (get_wallet_token_balances lib lodash c wallet s).0
          ≡ ok (flat (map (λ (chain_id, ts). held_tokens chain_id ts) (c.group_by_chain_id tokens)))
    unfolding get_wallet_token_balances balances_at
    get_wallet_token_balances_lem a addresses tokens s t u none_grouped e f =
        rw (e, f) (balances_of-held tokens u none_grouped)
