-- ===== src/Lodash/Lists.antt =====
-- Functions on lists that behave as lodash documents.
use blockchain_task_server.Common.{
  ℕ, zero, suc, ◌<◌, Option, none, some, List, [], ◌∷◌, ◌++◌, ◌≡◌, refl, sym, ap, ◌∙◌, length,
  append_nil, append_assoc, arith,
}
use blockchain_task_server.Lodash.{Lodash, IsDocumented}

abbrev last_chunk : {A : Type 0} → List A → List (List A)
last_chunk [] = []
last_chunk (x ∷ xs) = (x ∷ xs) ∷ []

-- The chunks of `n + 1` items, behind a chunk with some room left.
abbrev chunks : {A : Type 0} → ℕ → List A → ℕ → List A → List (List A)
chunks n current room [] = last_chunk current
chunks n current zero (x ∷ xs) = current ∷ chunks n (x ∷ []) n xs
chunks n current (suc room) (x ∷ xs) = chunks n (current ++ (x ∷ [])) room xs

abbrev chunk : {A : Type 0} → List A → ℕ → List (List A)
chunk xs zero = []
chunk xs (suc n) = chunks n [] (suc n) xs

abbrev zip : {A B : Type 0} → List A → List B → List (Option A × Option B)
zip [] [] = []
zip (x ∷ xs) [] = (some x, none) ∷ zip xs []
zip [] (y ∷ ys) = (none, some y) ∷ zip [] ys
zip (x ∷ xs) (y ∷ ys) = (some x, some y) ∷ zip xs ys

chunks-fill :
    {A : Type 0} (n : ℕ) (current : List A) (room : ℕ) (xs ys : List A)
    → length xs ≡ room
    → chunks n current room (xs ++ ys) ≡ chunks n (current ++ xs) 0 ys
chunks-fill n current zero [] ys e = ap (λ c. chunks n c 0 ys) (sym (append_nil current))
chunks-fill n current zero (x ∷ xs) ys e = absurd (omega arith)
chunks-fill n current (suc room) [] ys e = absurd (omega arith)
chunks-fill n current (suc room) (x ∷ xs) ys e =
    chunks-fill n (current ++ (x ∷ [])) room xs ys (omega arith)
    ∙ ap (λ c. chunks n c 0 ys) (append_assoc current (x ∷ []) xs)

chunks-full :
    {A : Type 0} (n : ℕ) (x : A) (xs ys : List A)
    → chunks n (x ∷ xs) 0 ys ≡ (x ∷ xs) ∷ chunk ys (suc n)
chunks-full n x xs [] = refl
chunks-full n x xs (y ∷ ys) = refl

chunk_append :
    {A : Type 0} (xs ys : List A) (n : ℕ)
    → length xs ≡ n
    → 0 < n
    → chunk (xs ++ ys) n ≡ xs ∷ chunk ys n
chunk_append xs ys zero e h = absurd (omega arith)
chunk_append [] ys (suc n) e h = absurd (omega arith)
chunk_append (x ∷ xs) ys (suc n) e h =
    chunks-fill n [] (suc n) (x ∷ xs) ys e ∙ chunks-full n x xs ys

chunk_nil : {A : Type 0} (n : ℕ) → chunk {A = A} [] n ≡ []
chunk_nil zero = refl
chunk_nil (suc n) = refl

abbrev pub lists : Lodash
lists = record { chunk = λ {A} xs n. chunk xs n; zip = λ {A} {B} xs ys. zip xs ys }

pub lists-IsDocumented : IsDocumented lists
lists-IsDocumented = record {
  chunk_nil = λ {A} n. chunk_nil n;
  chunk_append = λ {A} xs ys n e h. chunk_append xs ys n e h;
  zip_nil = λ {A} {B}. refl;
  zip_cons = λ {A} {B} x xs y ys. refl;
}
