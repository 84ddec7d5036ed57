-- ===== src/Contracts/Results.antt =====
-- Results that are computed item by item.
use mathlib.Core.Option.{some-injective}
use blockchain_task_server.Common.{
  ℕ, zero, suc, Option, none, some, List, [], ◌∷◌, ◌≡◌, ◌≢◌, ◌⊎◌, inl, inr, refl, sym, ap, ◌∙◌, map,
  get_elem?,
}
use blockchain_task_server.Exceptions.{Thrown}
use blockchain_task_server.Effects.{
  Result, ok, err, cons_result, push_result, map_result, collect, then_result,
}

abbrev pub map_some {ℓ κ} : {A : Type ℓ} {B : Type κ} → (A → B) → Option A → Option B
map_some f none = none
map_some f (some a) = some (f a)

pub ok-injective : {A : Type 0} (a b : A) → ok a ≡ ok b → a ≡ b
ok-injective a b e = cc

pub ok-err : {A : Type 0} (r : Result A) (a : A) (z : Thrown) → r ≡ ok a → r ≢ err z
ok-err r a z returned thrown = cc

pub cons_result-ok :
    {B : Type 0} (r : Result B) (rest : Result (List B)) (ys : List B)
    → cons_result r rest ≡ ok ys
    → (b : B) × (bs : List B) × (r ≡ ok b) × (rest ≡ ok bs) × (ys ≡ b ∷ bs)
cons_result-ok (ok b) (ok bs) ys e = (b, bs, refl, refl, cc)
cons_result-ok (ok b) (err z) ys e = cc
cons_result-ok (err z) rest ys e = cc

pub push_result-ok :
    {B : Type 0} (r : Result (Option B)) (rest : Result (List B)) (ys : List B)
    → push_result r rest ≡ ok ys
    → ((r ≡ ok none) × (rest ≡ ok ys))
      ⊎ ((b : B) × (bs : List B) × (r ≡ ok (some b)) × (rest ≡ ok bs) × (ys ≡ b ∷ bs))
push_result-ok (ok none) rest ys e = inl (refl, e)
push_result-ok (ok (some b)) (ok bs) ys e = inr (b, bs, refl, refl, cc)
push_result-ok (ok (some b)) (err z) ys e = cc
push_result-ok (err z) rest ys e = cc

pub then_result-ok :
    {A B : Type 0} (r : Result A) (f : A → Result B) (b : B)
    → then_result r f ≡ ok b
    → (a : A) × (r ≡ ok a) × (f a ≡ ok b)
then_result-ok (ok a) f b e = (a, refl, e)
then_result-ok (err z) f b e = cc

pub then_result-throws :
    {A B : Type 0} (r : Result A) (f : A → Result B) (b : B)
    → ((a : A) → f a ≢ ok b)
    → then_result r f ≢ ok b
then_result-throws (ok a) f b throws e = throws a e
then_result-throws (err z) f b throws e = cc

pub map_result-map :
    {A B C : Type 0} (f : B → Result C) (g : A → B) (xs : List A)
    → map_result f (map g xs) ≡ map_result (λ x. f (g x)) xs
unfolding map_result
map_result-map f g [] = refl
map_result-map f g (x ∷ xs) = ap (cons_result (f (g x))) (map_result-map f g xs)

module _ {A B : Type 0} (f : A → Result B) where
  -- Each item of the list has its own result at its own place.
  pub get_elem?-map_result :
      (xs : List A) (ys : List B) (k : ℕ) (x : A)
      → map_result f xs ≡ ok ys
      → get_elem? xs k ≡ some x
      → (y : B) × (get_elem? ys k ≡ some y) × (f x ≡ ok y)
  unfolding map_result
  get_elem?-map_result [] ys k x e h = cc
  get_elem?-map_result (z ∷ xs) ys zero x e h =
      let (b, bs, here, rest, whole) = cons_result-ok (f z) (map_result f xs) ys e in
      (b, ap (λ l. get_elem? l 0) whole, ap f (sym (some-injective z x h)) ∙ here)
  get_elem?-map_result (z ∷ xs) ys (suc k) x e h =
      let (b, bs, here, rest, whole) = cons_result-ok (f z) (map_result f xs) ys e in
      let (y, found, made) = get_elem?-map_result xs bs k x rest h in
      (y, ap (λ l. get_elem? l (suc k)) whole ∙ found, made)

pub get_elem?-map {ℓ κ} :
    {A : Type ℓ} {B : Type κ} (f : A → B) (xs : List A) (k : ℕ)
    → get_elem? (map f xs) k ≡ map_some f (get_elem? xs k)
get_elem?-map f [] k = refl
get_elem?-map f (x ∷ xs) zero = refl
get_elem?-map f (x ∷ xs) (suc k) = get_elem?-map f xs k

pub collect-map :
    {A C D : Type 0} (f : C → Result (Option D)) (g : A → C) (xs : List A)
    → collect f (map g xs) ≡ collect (λ x. f (g x)) xs
unfolding collect
collect-map f g [] = refl
collect-map f g (x ∷ xs) = ap (push_result (f (g x))) (collect-map f g xs)
