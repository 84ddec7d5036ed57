-- ===== src/Contracts/Chunks.antt =====
-- The replies to the calls of some items, split into the chunks of each item.
use blockchain_task_server.Common.{
  ℕ, suc, ◌<◌, List, [], ◌∷◌, ◌≡◌, refl, ap, ◌∙◌, map, length, map_append,
}
use blockchain_task_server.Lodash.{Lodash, IsDocumented}
use blockchain_task_server.Arrays.{flat}
use blockchain_task_server.Contracts.{Call, Reply}

pub length-map : {A B : Type 0} (f : A → B) (xs : List A) → length (map f xs) ≡ length xs
length-map f [] = refl
length-map f (x ∷ xs) = ap suc (length-map f xs)

module _ (lodash : Lodash) (documented : IsDocumented lodash) {X : Type 0} (calls : X → List Call)
    (n : ℕ) (positive : 0 < n) (sizes : (x : X) → length (calls x) ≡ n) (reply : Call → Reply) where
  pub chunks_of_items :
      (xs : List X)
      → lodash.chunk (map reply (flat (map calls xs))) n ≡ map (λ x. map reply (calls x)) xs
  unfolding flat
  chunks_of_items [] = documented.chunk_nil n
  chunks_of_items (x ∷ xs) =
      ap (λ rs. lodash.chunk rs n) (map_append reply (calls x) (flat (map calls xs)))
      ∙ (documented.chunk_append (map reply (calls x)) (map reply (flat (map calls xs))) n
            (length-map reply (calls x) ∙ sizes x) positive
          ∙ ap (◌∷◌ (map reply (calls x))) (chunks_of_items xs))
