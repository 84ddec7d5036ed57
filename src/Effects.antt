-- ===== src/Effects.antt =====
-- Asynchronous TypeScript code, one step after the other: an action changes a state and returns or
-- throws, and what it wrote before a throw stays written.
pub mod Rules
pub mod Returns
use blockchain_task_server.Common.{Option, none, some, Bool, if◌then◌else◌, List, [], ◌∷◌}
use blockchain_task_server.Exceptions.{Thrown}

pub data Result (A : Type 0) : Type 0 where
  ok : A → Result A
  err : Thrown → Result A

abbrev pub Action : Type 0 → Type 0 → Type 0
Action S A = S → Result A × S

module _ {S A : Type 0} where
  abbrev pub pure : A → Action S A
  pure a s = (ok a, s)

  abbrev pub throw : Thrown → Action S A
  throw e s = (err e, s)

  abbrev pub from_result : Result A → Action S A
  from_result r s = (r, s)

  abbrev pub gets : (S → A) → Action S A
  gets f s = (ok (f s), s)

  -- The handler of a `catch`, on how its body ended.
  abbrev pub recover : Result A → (Thrown → Action S A) → Action S A
  recover (ok a) handler = pure a
  recover (err e) handler = handler e

  -- `try { body } catch (e) { handler }`
  abbrev pub try_catch : Action S A → (Thrown → Action S A) → Action S A
  try_catch body handler s = let (r, after) = body s in recover r handler after

module _ {S A B : Type 0} where
  -- The rest of a block, on how what stands above it ended.
  abbrev pub and_then : Result A → (A → Action S B) → Action S B
  and_then (ok a) f = f a
  and_then (err e) f = throw e

  infixl 5 ◌>>=◌ ◌>>◌
  abbrev pub ◌>>=◌ : Action S A → (A → Action S B) → Action S B
  ◌>>=◌ m f s = let (r, after) = m s in and_then r f after

  abbrev pub ◌>>◌ : Action S A → Action S B → Action S B
  m >> k = m >>= λ _. k

-- `try { body } finally { cleanup }`: a throw of the cleanup takes the place of the result.
abbrev pub try_finally : {S A : Type 0} → Action S A → Action S (Unit {0}) → Action S A
try_finally body cleanup s = let (r, after) = body s in (cleanup >> from_result r) after

abbrev pub modify : {S : Type 0} → (S → S) → Action S (Unit {0})
modify f s = (ok tt, f s)

-- `if (c) body`
abbrev pub when : {S : Type 0} → Bool → Action S (Unit {0}) → Action S (Unit {0})
when c body = if c then body else pure tt

-- A loop over the items, each iteration awaited.
unfoldable pub for_each : {S A : Type 0} → (A → Action S (Unit {0})) → List A → Action S (Unit {0})
for_each body [] = pure tt
for_each body (x ∷ xs) = body x >> for_each body xs

-- `Promise.all` of the calls for the items, each call after the one before it.
unfoldable pub map_each : {S A B : Type 0} → (A → Action S B) → List A → Action S (List B)
map_each f [] = pure []
map_each f (x ∷ xs) = f x >>= λ b. map_each f xs >>= λ bs. pure (b ∷ bs)

-- `Promise.allSettled`, which returns how each call ended.
abbrev pub settle : {S A : Type 0} → Action S A → Action S (Result A)
settle m s = let (r, after) = m s in (ok r, after)

unfoldable pub settle_each :
    {S A B : Type 0} → (A → Action S B) → List A → Action S (List (Result B))
unfolding map_each
settle_each f = map_each (λ x. settle (f x))

-- How a list begins, given how the computations of its head and of its tail ended.
abbrev pub cons_result : {B : Type 0} → Result B → Result (List B) → Result (List B)
cons_result (ok b) (ok bs) = ok (b ∷ bs)
cons_result (ok b) (err e) = err e
cons_result (err e) rest = err e

-- `array.map(f)`, where `f` may throw.
unfoldable pub map_result : {A B : Type 0} → (A → Result B) → List A → Result (List B)
map_result f [] = ok []
map_result f (x ∷ xs) = cons_result (f x) (map_result f xs)

abbrev pub push_result : {B : Type 0} → Result (Option B) → Result (List B) → Result (List B)
push_result (ok none) rest = rest
push_result (ok (some b)) rest = cons_result (ok b) rest
push_result (err e) rest = err e

-- A `forEach` that pushes at most one value for an item, and may throw.
unfoldable pub collect : {A B : Type 0} → (A → Result (Option B)) → List A → Result (List B)
collect f [] = ok []
collect f (x ∷ xs) = push_result (f x) (collect f xs)

-- A chain of results.
abbrev pub then_result : {A B : Type 0} → Result A → (A → Result B) → Result B
then_result (ok a) f = f a
then_result (err e) f = err e
