-- ===== src/Contracts/Batch.antt =====
-- A batch call for the items of a list, the replies split into the chunks of each item, and one value at
-- most pushed for an item with its chunk.
use blockchain_task_server.Common.{
  ℕ, ◌<◌, Option, some, List, [], ◌∷◌, ◌≡◌, ◌≢◌, refl, ap, ◌∙◌, map, length,
}
use blockchain_task_server.Exceptions.{Thrown}
use blockchain_task_server.Effects.{Result, ok, err, Action, and_then, from_result, ◌>>=◌, collect}
use blockchain_task_server.Lodash.{Lodash, IsDocumented}
use blockchain_task_server.Arrays.{flat}
use blockchain_task_server.Contracts.{Call, Reply, Answers}
use blockchain_task_server.Contracts.Results.{collect-map}
use blockchain_task_server.Contracts.Chunks.{chunks_of_items}

module _ (lodash : Lodash) (documented : IsDocumented lodash) {X : Type 0} where
  pub zip-map :
      {Y : Type 0} (g : X → Y) (xs : List X)
      → lodash.zip xs (map g xs) ≡ map (λ x. (some x, some (g x))) xs
  zip-map g [] = documented.zip_nil
  zip-map g (x ∷ xs) =
      documented.zip_cons x xs (g x) (map g xs) ∙ ap (◌∷◌ (some x, some (g x))) (zip-map g xs)

  module _ {S Y : Type 0} (aggregate : List Call → Action S (List Reply))
      (answer : S → Call → Reply) (answers : Answers aggregate answer) (calls : X → List Call)
      (n : ℕ) (positive : 0 < n) (sizes : (x : X) → length (calls x) ≡ n)
      (f : Option X × Option (List Reply) → Result (Option Y)) where
    abbrev collected : List X → List Reply → Result (List Y)
    collected xs replies = collect f (lodash.zip xs (lodash.chunk replies n))

    -- One item after the other, each with the answers to its own calls.
    abbrev pub item_by_item : S → List X → Result (List Y)
    item_by_item s = collect (λ x. f (some x, some (map (answer s) (calls x))))

    collected-item_by_item :
        (s : S) (xs : List X)
        → collected xs (map (answer s) (flat (map calls xs))) ≡ item_by_item s xs
    collected-item_by_item s xs =
        ap (λ chunks. collect f (lodash.zip xs chunks))
          (chunks_of_items lodash documented calls n positive sizes (answer s) xs)
        ∙ (ap (collect f) (zip-map (λ x. map (answer s) (calls x)) xs)
            ∙ collect-map f (λ x. (some x, some (map (answer s) (calls x)))) xs)

    after_replies :
        (xs : List X) (s : S) (x : Result (List Reply) × S)
        → ((replies : List Reply)
            → x.0 ≡ ok replies
            → replies ≡ map (answer s) (flat (map calls xs)))
        → (e : (z : Thrown) → x.0 ≢ err z)
        → (and_then x.0 (λ replies. from_result (collected xs replies)) x.1).0 ≡ item_by_item s xs
    after_replies xs s (ok replies, t) h e =
        ap (collected xs) (h replies refl) ∙ collected-item_by_item s xs
    after_replies xs s (err z, t) h e = absurd (e z refl)

    -- If the batch call returns, no reply is read for another item.
    pub batch-item_by_item :
        (xs : List X) (s : S) (replies : List Reply)
        → (aggregate (flat (map calls xs)) s).0 ≡ ok replies
        → ((aggregate (flat (map calls xs)) >>= λ rs. from_result (collected xs rs)) s).0
          ≡ item_by_item s xs
    batch-item_by_item xs s replies e =
        after_replies xs s (aggregate (flat (map calls xs)) s) (answers (flat (map calls xs)) s)
          λ z eq. cc
