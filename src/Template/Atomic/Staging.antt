-- ===== src/Template/Atomic/Staging.antt =====
-- Rules for the writes of a transaction, one call after the other.
use mathlib.Core.Path.{subst}
use blockchain_task_server.Common.{List, [], ◌∷◌, ◌++◌, ◌≡◌, refl, true, sym, ◌∙◌, ap}
use blockchain_task_server.Effects.{Result, ok, err, Action, and_then, pure, when}
use blockchain_task_server.Platform.{Platform, Write, WroteIn, SameData, IsLawful}
use blockchain_task_server.Template.Atomic.{Staged}

-- The registration of a row, which is told by a Boolean, and what is done if there is one.
pub registered :
    {S : Type 0} (x : Result (Unit {0}) × S) (rest : Action S (Unit {0}))
    → (let y = and_then x.0 (λ _. pure true) x.1 in and_then y.0 (λ b. when b rest) y.1)
      ≡ and_then x.0 (λ _. rest) x.1
registered (ok _, t) rest = refl
registered (err e, t) rest = refl

module _ {W S T : Type 0} (p : Platform W S T) (lawful : IsLawful p)
    (G : List (Write W) → Type 0) where
  open p use {committed, pending}

  -- From a state with the tables of the first one, and with these writes, an action goes on to `G`.
  abbrev pub GoesOn : List (Write W) → S → Action S (Unit {0}) → Type 0
  GoesOn ws s m = (u : S) → committed u ≡ committed s → pending u ≡ ws → Staged p lawful G s (m u)

  -- Writes that begin with one.
  pub write_in-Staged :
      (w : Write W) (ws : List (Write W)) (s t : S) (rest : Action S (Unit {0}))
      (x : Result (Unit {0}) × S)
      → committed t ≡ committed s
      → pending t ≡ ws
      → WroteIn p w t x
      → GoesOn (ws ++ (w ∷ [])) s rest
      → Staged p lawful G s (and_then x.0 (λ _. rest) x.1)
  write_in-Staged w ws s t rest (ok _, u) same grown (same', grown', _) h =
      h u (same' ∙ same) (grown' ∙ ap (λ xs. xs ++ (w ∷ [])) grown)
  write_in-Staged w ws s t rest (err e, u) same grown ((same', _), _) h = same' ∙ same

  -- The last write.
  pub last_write-Staged :
      (w : Write W) (ws : List (Write W)) (s t : S) (x : Result (Unit {0}) × S)
      → committed t ≡ committed s
      → pending t ≡ ws
      → WroteIn p w t x
      → G (ws ++ (w ∷ []))
      → Staged p lawful G s x
  last_write-Staged w ws s t (ok _, u) same grown (same', grown', _) g =
      (same' ∙ same, subst G (sym (grown' ∙ ap (λ xs. xs ++ (w ∷ [])) grown)) g)
  last_write-Staged w ws s t (err e, u) same grown ((same', _), _) g = same' ∙ same

  -- Writes behind a call that only reads, by what it has returned.
  pub read-Staged_of :
      {A : Type 0} (ws : List (Write W)) (s t : S) (f : A → Action S (Unit {0})) (x : Result A × S)
      → committed t ≡ committed s
      → pending t ≡ ws
      → SameData p t x.1
      → ((a : A) → x.0 ≡ ok a → GoesOn ws s (f a))
      → Staged p lawful G s (and_then x.0 f x.1)
  read-Staged_of ws s t f (ok a, u) same grown (same', grown') h =
      h a refl u (same' ∙ same) (grown' ∙ grown)
  read-Staged_of ws s t f (err e, u) same grown (same', _) h = same' ∙ same

  pub read-Staged :
      {A : Type 0} (ws : List (Write W)) (s t : S) (f : A → Action S (Unit {0})) (x : Result A × S)
      → committed t ≡ committed s
      → pending t ≡ ws
      → SameData p t x.1
      → ((a : A) → GoesOn ws s (f a))
      → Staged p lawful G s (and_then x.0 f x.1)
  read-Staged ws s t f x same grown reads h =
      read-Staged_of ws s t f x same grown reads (λ a _. h a)
