-- ===== src/Effects/Returns.antt =====
-- Blocks and loops that return.
use blockchain_task_server.Common.{List, [], ◌∷◌, ◌≡◌, refl}
use blockchain_task_server.Exceptions.{Thrown}
use blockchain_task_server.Effects.{
  Result, ok, err, Action, recover, and_then, from_result, try_catch, try_finally, for_each,
}

-- A block that returns has run both of its parts to their ends.
pub and_then-returns :
    {A B S : Type 0} (Q : S → Type 0) (x : Result A × S) (f : A → Action S B) {b : B}
    → ((a : A) → x.0 ≡ ok a → (f a x.1).0 ≡ ok b → Q (f a x.1).1)
    → (and_then x.0 f x.1).0 ≡ ok b
    → Q (and_then x.0 f x.1).1
and_then-returns Q (ok a, s) f h e = h a refl e
and_then-returns Q (err x, s) f h e = cc

module _ {S : Type 0} where
  -- The action returns from every state.
  abbrev pub Returns : Action S (Unit {0}) → Type 0
  Returns m = (s : S) → (m s).0 ≡ ok tt

  recover-Returns :
      (handler : Thrown → Action S (Unit {0})) (x : Result (Unit {0}) × S)
      → ((e : Thrown) → x.0 ≡ err e → Returns (handler e))
      → (recover x.0 handler x.1).0 ≡ ok tt
  recover-Returns handler (ok _, s) h = refl
  recover-Returns handler (err e, s) h = h e refl s

  both-Returns :
      (r : Result (Unit {0})) (x : Result (Unit {0}) × S)
      → r ≡ ok tt
      → x.0 ≡ ok tt
      → (and_then x.0 (λ _. from_result r) x.1).0 ≡ ok tt
  both-Returns r (ok _, s) h k = h
  both-Returns r (err e, s) h k = cc

  -- A `try` returns whose handler returns for what its body throws, and whose cleanup returns.
  pub try-Returns_of :
      (body : Action S (Unit {0})) (handler : Thrown → Action S (Unit {0}))
      (cleanup : Action S (Unit {0})) (s : S)
      → ((e : Thrown) → (body s).0 ≡ err e → Returns (handler e))
      → Returns cleanup
      → (try_finally (try_catch body handler) cleanup s).0 ≡ ok tt
  try-Returns_of body handler cleanup s h k =
      let x = body s in
      let y = recover x.0 handler x.1 in
      both-Returns y.0 (cleanup y.1) (recover-Returns handler x h) (k y.1)

  pub try-Returns :
      (body : Action S (Unit {0})) (handler : Thrown → Action S (Unit {0}))
      (cleanup : Action S (Unit {0}))
      → ((e : Thrown) → Returns (handler e))
      → Returns cleanup
      → Returns (try_finally (try_catch body handler) cleanup)
  try-Returns body handler cleanup h k s = try-Returns_of body handler cleanup s (λ e _. h e) k

  module _ {A : Type 0} (body : A → Action S (Unit {0})) where
    -- The state behind the calls for the items, in their order, however each one ended.
    abbrev pub all_calls : List A → S → S
    all_calls [] s = s
    all_calls (x ∷ xs) s = all_calls xs (body x s).1

    -- A loop returns whose body returns, and has visited every item in order.
    pub for_each-all_calls :
        ((x : A) → Returns (body x))
        → (xs : List A) (s : S) → for_each body xs s ≡ (ok tt, all_calls xs s)
    unfolding for_each
    for_each-all_calls h [] s = refl
    for_each-all_calls h (x ∷ xs) s = rw (h x s) (for_each-all_calls h xs (body x s).1)
