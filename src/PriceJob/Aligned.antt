-- ===== src/PriceJob/Aligned.antt =====
-- The batch calls of the price jobs, against the answers to the calls for each token.
use blockchain_task_server.Common.{
  ℕ, ◌<◌, String, Option, none, some, List, [], ◌∷◌, ◌≡◌, ◌≢◌, refl, ap, ◌∙◌, map, length, arith,
}
use blockchain_task_server.Exceptions.{Thrown}
use blockchain_task_server.Effects.{
  Result, ok, err, Action, and_then, from_result, collect, push_result, map_each, map_result,
}
use blockchain_task_server.Lodash.{Lodash, IsDocumented}
use blockchain_task_server.Arrays.{flat}
use blockchain_task_server.BigNumber.{BigNumberLib}
use blockchain_task_server.Contracts.{Call, Reply, Answers}
use blockchain_task_server.Contracts.Chunks.{chunks_of_items}
use blockchain_task_server.PriceJob.Params.{
  PriceToken, PairToken, PriceParam, Erc20Calls, params_at,
}
use blockchain_task_server.PriceJob.SingleAmm.{
  Prepared, prepare, single_calls, single_param, crawl_single,
}
use blockchain_task_server.PriceJob.SingleAmm
use blockchain_task_server.PriceJob.MultiAmm
use blockchain_task_server.PriceJob.MultiAmm.{Keyed, keyed, multi_calls, multi_param, crawl_multi}

params_at-map :
    {X : Type 0} (param : X → Option (List Reply) → Result (Option PriceParam)) (g : X → List Reply)
    (xs : List X)
    → params_at param xs (map g xs) ≡ collect (λ x. param x (some (g x))) xs
unfolding params_at collect
params_at-map param g [] = refl
params_at-map param g (x ∷ xs) = ap (push_result (param x (some (g x)))) (params_at-map param g xs)

module _ {S X : Type 0} (lodash : Lodash) (documented : IsDocumented lodash) (calls : X → List Call)
    (n : ℕ) (positive : 0 < n) (sizes : (x : X) → length (calls x) ≡ n)
    (param : X → Option (List Reply) → Result (Option PriceParam)) where
  -- The rest of a crawl behind its batch call.
  after_batch :
      (reply : Call → Reply) (xs : List X) (x : Result (List Reply) × S)
      → ((replies : List Reply) → x.0 ≡ ok replies → replies ≡ map reply (flat (map calls xs)))
      → ((z : Thrown) → x.0 ≢ err z)
      → (and_then x.0 (λ replies. from_result (params_at param xs (lodash.chunk replies n))) x.1).0
        ≡ collect (λ x. param x (some (map reply (calls x)))) xs
  after_batch reply xs (ok replies, t) h e =
      ap (λ rs. params_at param xs (lodash.chunk rs n)) (h replies refl)
      ∙ (ap (params_at param xs) (chunks_of_items lodash documented calls n positive sizes reply xs)
          ∙ params_at-map param (λ x. map reply (calls x)) xs)
  after_batch reply xs (err z, t) h e = absurd (e z refl)

module _ {S B : Type 0} (lib : BigNumberLib B) (lodash : Lodash) (documented : IsDocumented lodash)
    (calls : Erc20Calls S) (chain_id : ℕ) (answer : S → Call → Reply)
    (answers : Answers (calls.aggregate chain_id) answer) where
  multi-sizes :
      (token : PairToken) (k : Option PriceToken)
      → length (MultiAmm.calls_for lib lodash calls token k) ≡ 2
  multi-sizes token none = refl
  multi-sizes token (some k) = refl

  -- If the key tokens are found and the batch call returns, then the values of the pairs' tokens are, for one
  -- after the other, what the answers to the two calls for this token make of it.
  pub crawl_multi_lem :
      (tokens : List PairToken) (xs : List Keyed) (replies : List Reply) (s : S)
      → map_result keyed tokens ≡ ok xs
      → (calls.aggregate chain_id (flat (map (multi_calls lib lodash calls) xs)) s).0 ≡ ok replies
      → (crawl_multi lib lodash calls chain_id tokens s).0
        ≡ collect
            (λ x.
              multi_param lib lodash calls x
                (some (map (answer s) (multi_calls lib lodash calls x))))
            xs
  unfolding crawl_multi multi_calls
  crawl_multi_lem tokens xs replies s found e =
      let batch = flat (map (multi_calls lib lodash calls) xs) in
      rw found (
        after_batch lodash documented (multi_calls lib lodash calls) 2 (omega arith)
          (λ x. multi-sizes x.token x.key_pair) (multi_param lib lodash calls) (answer s) xs
          (calls.aggregate chain_id batch s) (answers batch s) λ z eq. cc)

  module _ (find_configured_pairs : PriceToken → Action S (List PairToken)) where
    single-sizes :
        (token : PriceToken) (o : Option (PriceToken × String))
        → length (SingleAmm.calls_for lib lodash calls find_configured_pairs token o) ≡ 3
    single-sizes token none = refl
    single-sizes token (some (o, pair_address)) = refl

    -- If the best pairs are found and the batch call returns, then the values of the tokens are, for one after
    -- the other, what the answers to the three calls for this token make of it.
    pub crawl_single_lem :
        (tokens : List PriceToken) (xs : List Prepared) (replies : List Reply) (s t : S)
        → map_each (prepare lib lodash calls find_configured_pairs) tokens s ≡ (ok xs, t)
        → (calls.aggregate chain_id
            (flat (map (single_calls lib lodash calls find_configured_pairs) xs))
            t).0
          ≡ ok replies
        → (crawl_single lib lodash calls find_configured_pairs chain_id tokens s).0
          ≡ collect
              (λ x.
                single_param lib lodash calls find_configured_pairs x
                  (some (map (answer t) (single_calls lib lodash calls find_configured_pairs x))))
              xs
    unfolding crawl_single single_calls
    crawl_single_lem tokens xs replies s t found e =
        let batch = flat (map (single_calls lib lodash calls find_configured_pairs) xs) in
        rw found (
          after_batch lodash documented (single_calls lib lodash calls find_configured_pairs) 3
            (omega arith) (λ x. single-sizes x.token x.other)
            (single_param lib lodash calls find_configured_pairs) (answer t) xs
            (calls.aggregate chain_id batch t) (answers batch t) λ z eq. cc)
