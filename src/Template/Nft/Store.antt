-- ===== src/Template/Nft/Store.antt =====
-- The transaction of the NFT template, and the update of `pid` that it leaves outside.
use text.Mathlib.TextPositions.{eq_refl}
use blockchain_task_server.Common.{ℕ, String, some, if◌then◌else◌, List, ◌≡◌, ◌⊎◌, ap, ◌∙◌, arith}
use blockchain_task_server.Exceptions.{Thrown}
use blockchain_task_server.Effects.{ok, err}
use blockchain_task_server.Entities.{Scheduler, no_columns}
use blockchain_task_server.Platform.{
  Platform, merge, map_option, IsLawful, Write, update_scheduler, other,
}
use blockchain_task_server.Template.Nft.{store}

module _ {N S T : Type 0} (p : Platform (List N) S T) (lawful : IsLawful p) (id : String) where
  -- The update of the scheduler's `pid`.
  abbrev pub advance : ℕ → Write (List N)
  advance end = update_scheduler (some id) (record no_columns { pid = some end })

  module _ (tokens : List N) (end : ℕ) (s : S) where
    abbrev pub connected : S
    connected = (p.connect s).1

    abbrev pub started : S
    started = (p.start_transaction connected).1

    abbrev pub staged : S
    staged = (p.write_in (other tokens) started).1

    abbrev pub moved_on : S
    moved_on = (p.write (advance end) staged).1

    pub store-ok :
        (store p id tokens end s).0 ≡ ok tt
        → p.committed (store p id tokens end s).1
          ≡ p.effect (other tokens) (p.effect (advance end) (p.committed s))
    unfolding store
    store-ok e = ground (
      arith,
      lawful.connect_law s,
      lawful.start_law connected,
      lawful.write_in_law (other tokens) started,
      lawful.write_law (advance end) staged,
      lawful.commit_law moved_on,
    )

    -- A `store` that throws has written nothing, or has moved the scheduler on all the same.
    pub store-err :
        (e : Thrown)
        → (store p id tokens end s).0 ≡ err e
        → (p.committed (store p id tokens end s).1 ≡ p.committed s)
          ⊎ (p.committed (store p id tokens end s).1 ≡ p.effect (advance end) (p.committed s))
    unfolding store
    store-err e h = ground (
      arith,
      lawful.connect_law s,
      lawful.start_law connected,
      lawful.write_in_law (other tokens) started,
      lawful.write_law (advance end) staged,
      lawful.commit_law moved_on,
    )

  store-commit_fails :
      (tokens : List N) (end : ℕ) (s : S) (e : Thrown)
      → (p.connect s).0 ≡ ok tt
      → (p.start_transaction (connected tokens end s)).0 ≡ ok tt
      → (p.write_in (other tokens) (started tokens end s)).0 ≡ ok tt
      → (p.write (advance end) (staged tokens end s)).0 ≡ ok tt
      → (p.commit (moved_on tokens end s)).0 ≡ err e
      → p.committed (store p id tokens end s).1 ≡ p.effect (advance end) (p.committed s)
  unfolding store
  store-commit_fails tokens end s e h₁ h₂ h₃ h₄ h₅ = ground (
    arith,
    lawful.connect_law s,
    lawful.start_law (connected tokens end s),
    lawful.write_in_law (other tokens) (started tokens end s),
    lawful.write_law (advance end) (staged tokens end s),
    lawful.commit_law (moved_on tokens end s),
  )

  -- If all but the commit of a `store` succeed, and the commit fails, then the scheduler's `pid` has
  -- moved on to the end of the window, and nothing else is written.
  pub store-loses :
      (tokens : List N) (end : ℕ) (s : S) (e : Thrown) (r : Scheduler)
      → (p.connect s).0 ≡ ok tt
      → (p.start_transaction (connected tokens end s)).0 ≡ ok tt
      → (p.write_in (other tokens) (started tokens end s)).0 ≡ ok tt
      → (p.write (advance end) (staged tokens end s)).0 ≡ ok tt
      → (p.commit (moved_on tokens end s)).0 ≡ err e
      → p.scheduler_row (p.committed s) id ≡ some r
      → (p.committed (store p id tokens end s).1 ≡ p.effect (advance end) (p.committed s))
        × (p.scheduler_row (p.committed (store p id tokens end s).1) id
            ≡ some (record r { pid = some end }))
  store-loses tokens end s e r h₁ h₂ h₃ h₄ h₅ found =
      let kept = store-commit_fails tokens end s e h₁ h₂ h₃ h₄ h₅ in
      (
        kept,
        ap (λ d. p.scheduler_row d id) kept
            ∙ (lawful.row-effect (some id) (record no_columns { pid = some end }) (p.committed s) id
                ∙ (ap
                      (λ b.
                        if b
                        then map_option set (p.scheduler_row (p.committed s) id)
                        else p.scheduler_row (p.committed s) id)
                      (eq_refl id)
                    ∙ ap (map_option set) found)),
      )
    where
      set : Scheduler → Scheduler
      set = merge (record no_columns { pid = some end })
