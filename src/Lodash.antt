-- ===== src/Lodash.antt =====
-- The functions of lodash that the services call through libs/helper/src/array.ts. lodash is not part of
-- the repository: it is a record of functions, with the documented behaviour that the proofs rely on.
pub mod Lists
use blockchain_task_server.Common.{
  ℕ, ◌<◌, String, Option, none, some, List, [], ◌∷◌, ◌++◌, ◌≡◌, length,
}

-- `zip` pads the shorter array with `undefined`.
pub record Lodash : Type 1 where
  pub chunk : {A : Type 0} → List A → ℕ → List (List A)
  pub zip : {A B : Type 0} → List A → List B → List (Option A × Option B)

pub record IsDocumented (l : Lodash) : Type 1 where
  pub chunk_nil : {A : Type 0} (n : ℕ) → l.chunk {A = A} [] n ≡ []
  pub chunk_append :
      {A : Type 0} (xs ys : List A) (n : ℕ)
      → length xs ≡ n
      → 0 < n
      → l.chunk (xs ++ ys) n ≡ xs ∷ l.chunk ys n
  pub zip_nil : {A B : Type 0} → l.zip {A = A} {B = B} [] [] ≡ []
  pub zip_cons :
      {A B : Type 0} (x : A) (xs : List A) (y : B) (ys : List B)
      → l.zip (x ∷ xs) (y ∷ ys) ≡ (some x, some y) ∷ l.zip xs ys
