-- ===== src/Effects/Rules.antt =====
-- Rules for actions that keep a relation between the state before and the state after, whether
-- they return or throw.
use blockchain_task_server.Common.{Bool, true, false, if◌then◌else◌, List, [], ◌∷◌, ◌≡◌, refl, ◌∙◌}
use blockchain_task_server.Exceptions.{Thrown}
use blockchain_task_server.Effects.{
  Result, ok, err, Action, pure, from_result, recover, try_catch, and_then, ◌>>=◌, try_finally,
  when, for_each, map_each, settle, settle_each,
}

-- `R` relates the state before an action to the state after it.
abbrev pub Keeps {ℓ} : {S A : Type 0} → (S → S → Type ℓ) → Action S A → Type ℓ
Keeps {S} R m = (s : S) → R s (m s).1

pub record IsPreorder {ℓ} {S : Type 0} (R : S → S → Type ℓ) : Type ℓ where
  pub same : (s : S) → R s s
  pub chain : (s t u : S) → R s t → R t u → R s u

-- A part of the state stays as it is.
pub unchanged-IsPreorder : {S T : Type 0} (part : S → T) → IsPreorder (λ s t. part t ≡ part s)
unchanged-IsPreorder part = record { same = λ s. refl; chain = λ s t u h k. k ∙ h }

module _ {ℓ} {S : Type 0} (R : S → S → Type ℓ) (po : IsPreorder R) where
  open po use {same, chain}

  pub pure-Keeps : {A : Type 0} (a : A) → Keeps R (pure {S = S} a)
  pure-Keeps a s = same s

  and_then-Keeps :
      {A B : Type 0} (r : Result A) (f : A → Action S B) (s t : S)
      → ((a : A) → Keeps R (f a))
      → R s t
      → R s (and_then r f t).1
  and_then-Keeps (ok a) f s t hf h = chain s t _ h (hf a t)
  and_then-Keeps (err e) f s t hf h = h

  pub bind-Keeps :
      {A B : Type 0} (m : Action S A) (f : A → Action S B)
      → Keeps R m
      → ((a : A) → Keeps R (f a))
      → Keeps R (m >>= f)
  bind-Keeps m f hm hf s = and_then-Keeps (m s).0 f s (m s).1 hf (hm s)

  recover-Keeps :
      {A : Type 0} (r : Result A) (handler : Thrown → Action S A) (s t : S)
      → ((e : Thrown) → Keeps R (handler e))
      → R s t
      → R s (recover r handler t).1
  recover-Keeps (ok a) handler s t hh h = h
  recover-Keeps (err e) handler s t hh h = chain s t _ h (hh e t)

  pub try_catch-Keeps :
      {A : Type 0} (body : Action S A) (handler : Thrown → Action S A)
      → Keeps R body
      → ((e : Thrown) → Keeps R (handler e))
      → Keeps R (try_catch body handler)
  try_catch-Keeps body handler hb hh s = recover-Keeps (body s).0 handler s (body s).1 hh (hb s)

  pub try_finally-Keeps :
      {A : Type 0} (body : Action S A) (cleanup : Action S (Unit {0}))
      → Keeps R body
      → Keeps R cleanup
      → Keeps R (try_finally body cleanup)
  try_finally-Keeps body cleanup hb hc s =
      chain s (body s).1 _ (hb s)
        (bind-Keeps cleanup (λ _. from_result (body s).0) hc (λ _ t. same t) (body s).1)

  pub if-Keeps :
      {A : Type 0} (c : Bool) (m k : Action S A)
      → Keeps R m
      → Keeps R k
      → (s : S) → R s ((if c then m else k) s).1
  if-Keeps true m k h h' = h
  if-Keeps false m k h h' = h'

  pub when-Keeps : (c : Bool) (body : Action S (Unit {0})) → Keeps R body → Keeps R (when c body)
  when-Keeps true body h = h
  when-Keeps false body h = λ s. same s

  pub for_each-Keeps :
      {A : Type 0} (body : A → Action S (Unit {0})) (xs : List A)
      → ((x : A) → Keeps R (body x))
      → Keeps R (for_each body xs)
  unfolding for_each
  for_each-Keeps body [] h = λ s. same s
  for_each-Keeps body (x ∷ xs) h = bind-Keeps (body x) _ (h x) (λ _. for_each-Keeps body xs h)

  pub map_each-Keeps :
      {A B : Type 0} (f : A → Action S B) (xs : List A)
      → ((x : A) → Keeps R (f x))
      → Keeps R (map_each f xs)
  unfolding map_each
  map_each-Keeps f [] h = λ s. same s
  map_each-Keeps f (x ∷ xs) h =
      bind-Keeps (f x) _ (h x)
        λ b. bind-Keeps (map_each f xs) _ (map_each-Keeps f xs h) λ bs s. same s

  pub settle_each-Keeps :
      {A B : Type 0} (f : A → Action S B) (xs : List A)
      → ((x : A) → Keeps R (f x))
      → Keeps R (settle_each f xs)
  unfolding settle_each
  settle_each-Keeps f xs h = map_each-Keeps (λ x. settle (f x)) xs h
