-- ===== src/Platform.antt =====
-- What the jobs use of TypeORM, of the registry of @nestjs/schedule and of cron. That code is not
-- part of the repository: it is a record of operations over an unknown state, with the documented
-- behaviour that the proofs rely on.
pub mod Memory
pub mod Rows
use blockchain_task_server.Common.{
  ℕ, String, Bool, true, false, Option, none, some, List, [], ◌∷◌, ◌++◌, ◌≡◌, if◌then◌else◌, str_eq,
}
use blockchain_task_server.Exceptions.{Thrown, exception, error}
use blockchain_task_server.Effects.{Result, ok, err, Action}
use blockchain_task_server.Entities.{Scheduler, SchedulerSet}

abbrev or_else : {A : Type 0} → Option A → A → A
or_else none a = a
or_else (some b) a = b

-- A row after an `UPDATE` that sets the given columns.
abbrev pub merge : SchedulerSet → Scheduler → Scheduler
merge set s = record s {
  process = or_else set.process s.process;
  status = or_else set.status s.status;
  error = or_else set.error s.error;
  pid = elim set.pid [ none ↦ s.pid | some n ↦ some n ];
  block_number = elim set.block_number [ none ↦ s.block_number | some n ↦ some n ];
}

-- `where` of an update: `{ id }`, or `{}` for every row.
abbrev pub selects : Option String → String → Bool
selects none j = true
selects (some id) j = str_eq id j

abbrev pub map_option : {A B : Type 0} → (A → B) → Option A → Option B
map_option f none = none
map_option f (some a) = some (f a)

-- `W` is the type of the writes to other tables than that of the schedulers.
pub data Write (W : Type 0) : Type 0 where
  update_scheduler : Option String → SchedulerSet → Write W
  other : W → Write W

pub record Platform (W S T : Type 0) : Type 0 where
  -- What the database holds, and the writes of the open transaction, the oldest first.
  pub committed : S → T
  pub pending : S → List (Write W)
  pub scheduler_row : T → String → Option Scheduler
  pub effect : Write W → T → T
  -- Calls through the repositories' own connection.
  pub find_scheduler : String → Action S (Option Scheduler)
  pub find_active_schedulers : Action S (List Scheduler)
  pub write : Write W → Action S (Unit {0})
  -- The query runner, and a call through its manager.
  pub connect : Action S (Unit {0})
  pub start_transaction : Action S (Unit {0})
  pub write_in : Write W → Action S (Unit {0})
  pub commit : Action S (Unit {0})
  pub rollback : Action S (Unit {0})
  pub release : Action S (Unit {0})
  pub is_transaction_active : S → Bool
  pub is_released : S → Bool
  -- The registry of cron jobs, and the job's timer.
  pub registered : S → String → Bool
  pub delete_cron_job : String → Action S (Unit {0})
  pub set_time : String → Option String → Action S (Unit {0})
  pub start_job : String → Action S (Unit {0})

-- No library throws an exception of the program.
abbrev pub IsForeign : Thrown → Type 0
IsForeign (exception x) = ⊥
IsForeign (error m) = Unit

-- The writes of a transaction, applied in their order.
abbrev pub apply_all : {W T : Type 0} → (Write W → T → T) → List (Write W) → T → T
apply_all effect [] t = t
apply_all effect (w ∷ ws) t = apply_all effect ws (effect w t)

module _ {W S T : Type 0} (p : Platform W S T) where
  open p use {committed, pending, scheduler_row, effect, registered}

  -- The database is as it was.
  abbrev pub SameData : S → S → Type 0
  SameData s t = (committed t ≡ committed s) × (pending t ≡ pending s)

  -- The registry is as it was.
  abbrev pub SameRegistry : S → S → Type 0
  SameRegistry s t = (j : String) → registered t j ≡ registered s j

  abbrev pub Found : String → S → Result (Option Scheduler) × S → Type 0
  Found id s (ok r, t) = (r ≡ scheduler_row (committed s) id) × SameData s t × SameRegistry s t
  Found id s (err e, t) = IsForeign e × SameData s t × SameRegistry s t

  abbrev pub Wrote : Write W → S → Result (Unit {0}) × S → Type 0
  Wrote w s (ok _, t) =
      (committed t ≡ effect w (committed s)) × (pending t ≡ pending s) × SameRegistry s t
  Wrote w s (err e, t) = SameData s t × SameRegistry s t

  abbrev pub WroteIn : Write W → S → Result (Unit {0}) × S → Type 0
  WroteIn w s (ok _, t) =
      (committed t ≡ committed s) × (pending t ≡ pending s ++ (w ∷ [])) × SameRegistry s t
  WroteIn w s (err e, t) = SameData s t × SameRegistry s t

  -- A transaction begins with no writes, on a connection without an open transaction. The jobs whose theorems
  -- use this end theirs by a commit or a rollback before they release the connection; what becomes of one that
  -- is left open, which MySQL commits when the next one begins on its connection, is not followed.
  abbrev pub Started : S → Result (Unit {0}) × S → Type 0
  Started s (ok _, t) = (committed t ≡ committed s) × (pending t ≡ []) × SameRegistry s t
  Started s (err e, t) = SameData s t × SameRegistry s t

  abbrev pub Committed : S → Result (Unit {0}) × S → Type 0
  Committed s (ok _, t) =
      (committed t ≡ apply_all effect (pending s) (committed s))
      × (pending t ≡ [])
      × SameRegistry s t
  Committed s (err e, t) = SameData s t × SameRegistry s t

  abbrev pub RolledBack : S → Result (Unit {0}) × S → Type 0
  RolledBack s (r, t) = (committed t ≡ committed s) × SameRegistry s t

  abbrev pub Deleted : String → S → Result (Unit {0}) × S → Type 0
  Deleted id s (ok _, t) =
      SameData s t
      × ((j : String) → registered t j ≡ (if str_eq id j then false else registered s j))
  Deleted id s (err e, t) = SameData s t × SameRegistry s t

  -- The documented behaviour. Any call may throw, and then has written nothing.
  pub record IsLawful : Type 0 where
    pub row-effect :
        (where_id : Option String) (set : SchedulerSet) (t : T) (j : String)
        → scheduler_row (effect (update_scheduler where_id set) t) j ≡ (
            if selects where_id j
            then map_option (merge set) (scheduler_row t j)
            else scheduler_row t j)
    pub row-effect_other :
        (w : W) (t : T) (j : String) → scheduler_row (effect (other w) t) j ≡ scheduler_row t j
    pub find_scheduler_law : (id : String) (s : S) → Found id s (p.find_scheduler id s)
    pub find_active_law :
        (s : S)
        → SameData s (p.find_active_schedulers s).1 × SameRegistry s (p.find_active_schedulers s).1
    pub write_law : (w : Write W) (s : S) → Wrote w s (p.write w s)
    pub connect_law : (s : S) → SameData s (p.connect s).1 × SameRegistry s (p.connect s).1
    pub start_law : (s : S) → Started s (p.start_transaction s)
    pub write_in_law : (w : Write W) (s : S) → WroteIn w s (p.write_in w s)
    pub commit_law : (s : S) → Committed s (p.commit s)
    pub rollback_law : (s : S) → RolledBack s (p.rollback s)
    pub release_law : (s : S) → RolledBack s (p.release s)
    pub delete_law : (id : String) (s : S) → Deleted id s (p.delete_cron_job id s)
    pub set_time_law :
        (id : String) (cron : Option String) (s : S)
        → SameData s (p.set_time id cron s).1 × SameRegistry s (p.set_time id cron s).1
    pub start_job_law :
        (id : String) (s : S)
        → SameData s (p.start_job id s).1 × SameRegistry s (p.start_job id s).1
