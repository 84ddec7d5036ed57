-- ===== src/Platform/Rows.antt =====
-- What an update of one scheduler does to the rows, read off the laws of a platform.
use text.Mathlib.TextPositions.{eq_refl}
use blockchain_task_server.Common.{
  String, false, Option, some, ◌≡◌, ◌⊎◌, inl, inr, ◌∙◌, refl, ap, Bool, true, none, str_eq,
  if◌then◌else◌,
}
use blockchain_task_server.Effects.{Result, ok, err}
use blockchain_task_server.Entities.{Scheduler, SchedulerSet}
use blockchain_task_server.Platform.{
  Platform, IsLawful, Write, update_scheduler, Wrote, SameRegistry, map_option, merge, selects,
}

-- The row of a scheduler, as committed.
abbrev pub row : {W S T : Type 0} → Platform W S T → S → String → Option Scheduler
row p s j = p.scheduler_row (p.committed s) j

if_cases :
    {A : Type 0} (b : Bool) (x y : A) → ((if b then x else y) ≡ x) ⊎ ((if b then x else y) ≡ y)
if_cases true x y = inl refl
if_cases false x y = inr refl

module _ {W S T : Type 0} (p : Platform W S T) (lawful : IsLawful p) where
  row_after :
      (w : Write W) (s : S) (x : Result (Unit {0}) × S) (j : String)
      → Wrote p w s x
      → x.0 ≡ ok tt
      → row p x.1 j ≡ p.scheduler_row (p.effect w (p.committed s)) j
  row_after w s (ok _, t) j h e = ap (λ d. p.scheduler_row d j) h.0
  row_after w s (err _, t) j h e = cc

  same_after :
      (w : Write W) (s : S) (x : Result (Unit {0}) × S) (j : String)
      → Wrote p w s x
      → p.scheduler_row (p.effect w (p.committed s)) j ≡ row p s j
      → row p x.1 j ≡ row p s j
  same_after w s (ok _, t) j h e = ap (λ d. p.scheduler_row d j) h.0 ∙ e
  same_after w s (err _, t) j h e = ap (λ d. p.scheduler_row d j) h.0.0

  registry_after :
      (w : Write W) (s : S) (x : Result (Unit {0}) × S) → Wrote p w s x → SameRegistry p s x.1
  registry_after w s (ok _, t) h = h.2
  registry_after w s (err _, t) h = h.1

  module _ (id : String) (set : SchedulerSet) (s : S) where
    abbrev update : Write W
    update = update_scheduler (some id) set

    -- A successful update merges the columns into the row.
    pub row-update_self :
        (p.write update s).0 ≡ ok tt
        → row p (p.write update s).1 id ≡ map_option (merge set) (row p s id)
    row-update_self e =
        row_after update s (p.write update s) id (lawful.write_law update s) e
        ∙ (lawful.row-effect (some id) set (p.committed s) id
            ∙ ap (λ b. if b then map_option (merge set) (row p s id) else row p s id) (eq_refl id))

    -- No update touches another row.
    pub row-update_ne :
        (j : String) → str_eq id j ≡ false → row p (p.write update s).1 j ≡ row p s j
    row-update_ne j ne = same_after update s (p.write update s) j (lawful.write_law update s) (
        lawful.row-effect (some id) set (p.committed s) j
        ∙ ap (λ b. if b then map_option (merge set) (row p s j) else row p s j) ne)

    pub registered-update : SameRegistry p s (p.write update s).1
    registered-update = registry_after update s (p.write update s) (lawful.write_law update s)

  effect_cases :
      (where_id : Option String) (set : SchedulerSet) (t : T) (j : String)
      → (p.scheduler_row (p.effect (update_scheduler where_id set) t) j ≡ p.scheduler_row t j)
        ⊎ (p.scheduler_row (p.effect (update_scheduler where_id set) t) j
            ≡ map_option (merge set) (p.scheduler_row t j))
  effect_cases where_id set t j =
      elim (if_cases (selects where_id j) (map_option (merge set) (p.scheduler_row t j))
        (p.scheduler_row t j)) [
          | inl e ↦ inr (lawful.row-effect where_id set t j ∙ e)
          | inr e ↦ inl (lawful.row-effect where_id set t j ∙ e)
        ]

  -- Whatever a write of schedulers does, a row stays as it is or takes the columns.
  pub row-update_cases :
      (where_id : Option String) (set : SchedulerSet) (s : S) (j : String)
      → (row p (p.write (update_scheduler where_id set) s).1 j ≡ row p s j)
        ⊎ (row p (p.write (update_scheduler where_id set) s).1 j
            ≡ map_option (merge set) (row p s j))
  row-update_cases where_id set s j =
      go (p.write (update_scheduler where_id set) s)
        (lawful.write_law (update_scheduler where_id set) s)
    where
      go :
          (x : Result (Unit {0}) × S)
          → Wrote p (update_scheduler where_id set) s x
          → (row p x.1 j ≡ row p s j) ⊎ (row p x.1 j ≡ map_option (merge set) (row p s j))
      go (ok _, t) h = elim (effect_cases where_id set (p.committed s) j) [
        | inl e ↦ inl (ap (λ d. p.scheduler_row d j) h.0 ∙ e)
        | inr e ↦ inr (ap (λ d. p.scheduler_row d j) h.0 ∙ e)
      ]
      go (err _, t) h = inl (ap (λ d. p.scheduler_row d j) h.0.0)

  -- A successful update of every row.
  pub row-update_all :
      (set : SchedulerSet) (s : S) (j : String)
      → (p.write (update_scheduler none set) s).0 ≡ ok tt
      → row p (p.write (update_scheduler none set) s).1 j ≡ map_option (merge set) (row p s j)
  row-update_all set s j e =
      row_after (update_scheduler none set) s (p.write (update_scheduler none set) s) j
        (lawful.write_law (update_scheduler none set) s) e
      ∙ lawful.row-effect none set (p.committed s) j

  pub registered-update_all :
      (set : SchedulerSet) (s : S) → SameRegistry p s (p.write (update_scheduler none set) s).1
  registered-update_all set s =
      registry_after (update_scheduler none set) s (p.write (update_scheduler none set) s)
        (lawful.write_law (update_scheduler none set) s)

-- Where a row with the columns set comes from.
pub map_option-some :
    (set : SchedulerSet) (o : Option Scheduler) {r : Scheduler}
    → map_option (merge set) o ≡ some r
    → (q : Scheduler) × (o ≡ some q) × (r ≡ merge set q)
map_option-some set none e = cc
map_option-some set (some q) e = (q, refl, cc)
