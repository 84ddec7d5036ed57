-- ===== src/FarmJob/Loop/Writes.antt =====
-- The writes for one pid: the end of its farm; or a refresh of its farm, behind the creation of the farm
-- if there was none; or a creation alone, if the farm is found inactive behind it.
use mathlib.Core.Path.{subst}
use blockchain_task_server.Common.{
  ℕ, Option, some, true, false, List, [], ◌∷◌, ◌++◌, ◌≡◌, refl, sym, ◌⊎◌, inl, inr,
}
use blockchain_task_server.Effects.{Result, ok, err, Action, and_then, pure, when}
use blockchain_task_server.Platform.{Platform, IsLawful, Write, other, Wrote}
use blockchain_task_server.Template.Atomic.{Moved, Staged}
use blockchain_task_server.Template.Atomic.Staging.{
  GoesOn, write_in-Staged, last_write-Staged, registered,
}
use blockchain_task_server.FarmJob.Yields.{Farm}

-- The writes of a job by their kinds: the creation of a farm at a pid, the refresh of the farm of an id,
-- and its end; and how the job finds the farm at a pid, outside of the transaction and through its manager.
pub record Kinds (W S : Type 0) : Type 1 where
  pub Creates : ℕ → W → Type 0
  pub Refreshes : ℕ → W → Type 0
  pub end_of : ℕ → W
  pub find_farm : ℕ → Action S (Option Farm)
  pub find_farm_in : ℕ → Action S (Option Farm)

module _ {W S T : Type 0} (p : Platform W S T) (k : Kinds W S) where
  -- The creation of a farm at the pid.
  abbrev pub IsCreation : ℕ → List (Write W) → Type 0
  IsCreation pid ws = (w : W) × k.Creates pid w × (ws ≡ other w ∷ [])

  -- The farm that is found at the pid, outside of the transaction.
  abbrev pub IsKnown : ℕ → Option Farm → Type 0
  IsKnown pid farm = (u : S) × ((k.find_farm pid u).0 ≡ ok farm)

  -- The farm that is found at the pid, behind these writes of the transaction.
  abbrev pub IsFound : List (Write W) → ℕ → Farm → Type 0
  IsFound made pid farm =
      (u : S) × (p.pending u ≡ made) × ((k.find_farm_in pid u).0 ≡ ok (some farm))

  abbrev pub IsEnd : ℕ → List (Write W) → Type 0
  IsEnd pid ws = (farm : Farm) × IsKnown pid (some farm) × (ws ≡ other (k.end_of farm.id) ∷ [])

  abbrev pub IsRefresh : ℕ → List (Write W) → Type 0
  IsRefresh pid ws =
      (made : List (Write W)) × ((made ≡ []) ⊎ IsCreation pid made)
      × (farm : Farm) × IsFound made pid farm
      × (farm.status ≡ true)
      × (w : W) × k.Refreshes farm.id w
      × (ws ≡ made ++ (other w ∷ []))

  abbrev pub IsInactive : ℕ → List (Write W) → Type 0
  IsInactive pid ws =
      IsCreation pid ws × ((farm : Farm) × IsFound ws pid farm × (farm.status ≡ false))

  abbrev pub IsVisit : List (Write W) → Type 0
  IsVisit ws = (ws ≡ []) ⊎ ((pid : ℕ) × (IsEnd pid ws ⊎ (IsRefresh pid ws ⊎ IsInactive pid ws)))

  module _ (lawful : IsLawful p) (pid : ℕ) where
    -- No creation, and an inactive farm or none: nothing more.
    pub nothing-Staged : (s : S) → GoesOn p lawful IsVisit [] s (pure tt)
    nothing-Staged s t same grown = (same, inl grown)

    -- An inactive farm.
    pub inactive-Staged :
        (made : List (Write W)) (s : S) (farm : Farm)
        → (made ≡ []) ⊎ IsCreation pid made
        → IsFound made pid farm
        → farm.status ≡ false
        → GoesOn p lawful IsVisit made s (pure tt)
    inactive-Staged made s farm (inl none_made) found inactive t same grown =
        (same, subst IsVisit (sym grown) (inl none_made))
    inactive-Staged made s farm (inr creation) found inactive t same grown =
        (same, subst IsVisit (sym grown) (inr (pid, inr (inr (creation, (farm, found, inactive))))))

    -- A refresh of an active farm.
    pub refresh-Staged :
        (made : List (Write W)) (s : S) (farm : Farm) (w : W)
        → (made ≡ []) ⊎ IsCreation pid made
        → IsFound made pid farm
        → farm.status ≡ true
        → k.Refreshes farm.id w
        → GoesOn p lawful IsVisit made s (p.write_in (other w))
    refresh-Staged made s farm w creation found active refreshes u same grown =
        last_write-Staged p lawful IsVisit (other w) made s u (p.write_in (other w) u) same grown
          (lawful.write_in_law (other w) u)
          (inr (pid, inr (inl (made, creation, farm, found, active, w, refreshes, refl))))

    -- A creation, and what is done once there is a row.
    pub create-Staged :
        (s t : S) (w : W) (rest : Action S (Unit {0}))
        → p.committed t ≡ p.committed s
        → p.pending t ≡ []
        → GoesOn p lawful IsVisit (other w ∷ []) s rest
        → Staged p lawful IsVisit s (
            let x = p.write_in (other w) t in
            let y = and_then x.0 (λ _. pure true) x.1 in and_then y.0 (λ b. when b rest) y.1)
    create-Staged s t w rest same empty h =
        subst (Staged p lawful IsVisit s) (sym (registered (p.write_in (other w) t) rest)) (
          write_in-Staged p lawful IsVisit (other w) [] s t rest (p.write_in (other w) t) same empty
            (lawful.write_in_law (other w) t) h)

    ended-Moved :
        (farm : Farm) (s : S) (x : Result (Unit {0}) × S)
        → IsKnown pid (some farm)
        → Wrote p (other (k.end_of farm.id)) s x
        → Moved p lawful IsVisit (p.committed s) (p.committed x.1)
    ended-Moved farm s (ok _, t) known (e, _, _) =
        inr (other (k.end_of farm.id) ∷ [], inr (pid, inl (farm, known, refl)), e)
    ended-Moved farm s (err e, t) known ((same, _), _) = inl same

    -- The end of a farm, outside of a transaction.
    pub end-Moved :
        (farm : Farm) (s : S)
        → IsKnown pid (some farm)
        → Moved p lawful IsVisit
            (p.committed s)
            (p.committed (p.write (other (k.end_of farm.id)) s).1)
    end-Moved farm s known =
        ended-Moved farm s (p.write (other (k.end_of farm.id)) s) known
          (lawful.write_law (other (k.end_of farm.id)) s)
