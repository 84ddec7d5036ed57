-- ===== src/Defi/PancakeSwap/Tokens.antt =====
-- The NFTs of a wallet, against the answers to the calls for each index.
use blockchain_task_server.Common.{
  ℕ, String, Option, none, some, List, [], ◌∷◌, ◌≡◌, refl, ap, ◌∙◌, map, false,
}
use blockchain_task_server.Effects.{
  Result, ok, err, Action, and_then, from_result, ◌>>=◌, cons_result, push_result, map_result,
  collect, then_result,
}
use blockchain_task_server.Lodash.{Lodash}
use blockchain_task_server.Arrays.{fill_sequence_number, remove_null}
use blockchain_task_server.BigNumber.{BigNumberLib, number, is_zero}
use blockchain_task_server.Contracts.{Call, Reply, Answers}
use blockchain_task_server.Contracts.Infos.{decode_or_null, batch_infos}
use blockchain_task_server.Contracts.Results.{map_result-map}
use blockchain_task_server.Defi.PancakeSwap.{
  NfContract, PancakeContext, owner_call, get_held, nf_wallet_info,
}

push_result-remove_null :
    {A : Type 0} (r : Result (Option A)) (rest : Result (List (Option A)))
    → push_result r (then_result rest (λ ys. ok (remove_null ys)))
      ≡ then_result (cons_result r rest) (λ ys. ok (remove_null ys))
unfolding remove_null
push_result-remove_null (ok none) (ok ys) = refl
push_result-remove_null (ok none) (err e) = refl
push_result-remove_null (ok (some a)) (ok ys) = refl
push_result-remove_null (ok (some a)) (err e) = refl
push_result-remove_null (err e) rest = refl

-- A list of results without its nulls is collected item by item.
collect-remove_null :
    {X A : Type 0} (f : X → Result (Option A)) (xs : List X)
    → collect f xs ≡ then_result (map_result f xs) (λ ys. ok (remove_null ys))
unfolding collect map_result remove_null
collect-remove_null f [] = refl
collect-remove_null f (x ∷ xs) =
    ap (push_result (f x)) (collect-remove_null f xs)
    ∙ push_result-remove_null (f x) (map_result f xs)

bind-remove_null :
    {S A C : Type 0} (r : Result (List (Option A))) (k : List A → Action S C) (s : S)
    → and_then r (λ ys. k (remove_null ys)) s
      ≡ and_then (then_result r (λ ys. ok (remove_null ys))) k s
bind-remove_null (ok ys) k s = refl
bind-remove_null (err e) k s = refl

module _ {S N P B : Type 0} (lib : BigNumberLib B) (lodash : Lodash) (c : PancakeContext S N P)
    (answer : S → Call → Reply) (answers : Answers c.aggregate answer) (t : NfContract)
    (wallet : String) (params : P) where
  -- The NFTs that the answers name, index by index.
  unfoldable pub answered : S → ℕ → Result (List ℕ)
  answered s n =
      collect
        (λ index.
          decode_or_null t.decode_token_of_owner_by_index
            (answer s (owner_call {B = B} lib lodash c t wallet index)))
        (fill_sequence_number n 0)

  abbrev owner_calls : ℕ → List Call
  owner_calls n = map (owner_call {B = B} lib lodash c t wallet) (fill_sequence_number n 0)

  abbrev pub searched : List ℕ → Action S (List N)
  searched ids = c.search params t.address (map lib.print_number ids)

  decoded :
      (n : ℕ) (s : S) (replies : List Reply)
      → replies ≡ map (answer s) (owner_calls n)
      → then_result
          (map_result (decode_or_null t.decode_token_of_owner_by_index) replies)
          (λ ys. ok (remove_null ys))
        ≡ answered s n
  unfolding answered
  decoded n s replies e =
      rw
        (
          e,
          map_result-map (decode_or_null t.decode_token_of_owner_by_index) (answer s)
              (owner_calls n),
          map_result-map (λ call. decode_or_null t.decode_token_of_owner_by_index (answer s call))
              (owner_call {B = B} lib lodash c t wallet) (fill_sequence_number n 0),
          collect-remove_null,
        )
        refl

  get_held-answered :
      (n : ℕ) (s u : S) (replies : List Reply)
      → c.aggregate (owner_calls n) s ≡ (ok replies, u)
      → get_held lib lodash c t wallet params n s ≡ (from_result (answered s n) >>= searched) u
  unfolding get_held batch_infos
  get_held-answered n s u replies e = rw e (
      bind-remove_null (map_result (decode_or_null t.decode_token_of_owner_by_index) replies)
        searched u
      ∙ ap (λ r. and_then r searched u)
          (decoded n s replies (answers (owner_calls n) s replies (ap (λ x. x.0) e))))

  -- If the balance is not zero and the batch call returns, then the rows are searched for exactly the NFTs
  -- that the answers to the calls for the indexes below the balance name, in their order; an index whose
  -- call failed or returned nothing is left out.
  pub nf_wallet_info_lem :
      (n : ℕ) (r s u : S) (replies : List Reply)
      → c.get_safe_erc721_balance_of t.address wallet r ≡ (ok n, s)
      → is_zero lib (number n) ≡ false
      → c.aggregate (owner_calls n) s ≡ (ok replies, u)
      → nf_wallet_info lib lodash c t wallet params r ≡ (from_result (answered s n) >>= searched) u
  unfolding nf_wallet_info
  nf_wallet_info_lem n r s u replies held some_held e =
      rw (held, some_held) (get_held-answered n s u replies e)
