-- ===== src/Platform/Memory.antt =====
-- A platform in memory whose calls all succeed: it meets the assumptions, and runs in the tests.
use blockchain_task_server.Common.{
  String, Bool, true, false, Option, none, some, List, [], ◌∷◌, ◌++◌, ◌≡◌, refl, arith,
  if◌then◌else◌, str_eq, eq_iff,
}
use blockchain_task_server.Effects.{ok, err, Action, pure}
use blockchain_task_server.Exceptions.{Thrown}
use blockchain_task_server.Entities.{Scheduler, SchedulerSet}
use blockchain_task_server.Platform.{
  Platform, IsLawful, Write, update_scheduler, other, merge, selects, apply_all, map_option,
  Committed,
}

-- The schedulers, and the writes to the other tables, the oldest first.
pub record Tables (W : Type 0) : Type 0 where
  pub schedulers : List Scheduler
  pub others : List W

pub record Memory (W : Type 0) : Type 0 where
  pub tables : Tables W
  pub pending : List (Write W)
  pub jobs : List String

abbrev update_rows : Option String → SchedulerSet → List Scheduler → List Scheduler
update_rows where_id set [] = []
update_rows where_id set (r ∷ rs) =
    (if selects where_id r.id then merge set r else r) ∷ update_rows where_id set rs

abbrev find_row : String → List Scheduler → Option Scheduler
find_row j [] = none
find_row j (r ∷ rs) = if str_eq r.id j then some r else find_row j rs

abbrev perform : {W : Type 0} → Write W → Tables W → Tables W
perform (update_scheduler where_id set) t = record t {
  schedulers = update_rows where_id set t.schedulers;
}
perform (other w) t = record t { others = t.others ++ (w ∷ []) }

abbrev is_listed : String → List String → Bool
is_listed j [] = false
is_listed j (k ∷ ks) = if str_eq k j then true else is_listed j ks

abbrev remove : String → List String → List String
remove j [] = []
remove j (k ∷ ks) = if str_eq j k then remove j ks else k ∷ remove j ks

abbrev active_rows : List Scheduler → List Scheduler
active_rows [] = []
active_rows (r ∷ rs) = if r.status then r ∷ active_rows rs else active_rows rs

abbrev commit_or : {W : Type 0} → Option Thrown → Action (Memory W) (Unit {0})
commit_or none s = (ok tt, record s { tables = apply_all perform s.pending s.tables; pending = [] })
commit_or (some e) s = (err e, s)

-- With a fault, every commit throws it.
abbrev pub memory_with : Option Thrown → (W : Type 0) → Platform W (Memory W) (Tables W)
memory_with fault W = record {
  committed = λ s. s.tables;
  pending = λ s. s.pending;
  scheduler_row = λ t j. find_row j t.schedulers;
  effect = perform;
  find_scheduler = λ id s. (ok (find_row id s.tables.schedulers), s);
  find_active_schedulers = λ s. (ok (active_rows s.tables.schedulers), s);
  write = λ w s. (ok tt, record s { tables = perform w s.tables });
  connect = pure tt;
  start_transaction = λ s. (ok tt, record s { pending = [] });
  write_in = λ w s. (ok tt, record s { pending = s.pending ++ (w ∷ []) });
  commit = commit_or fault;
  rollback = λ s. (ok tt, record s { pending = [] });
  release = pure tt;
  is_transaction_active = λ s. false;
  is_released = λ s. false;
  registered = λ s j. is_listed j s.jobs;
  delete_cron_job = λ id s. (ok tt, record s { jobs = remove id s.jobs });
  set_time = λ id cron. pure tt;
  start_job = λ id. pure tt;
}

abbrev pub memory : (W : Type 0) → Platform W (Memory W) (Tables W)
memory = memory_with none

commit_or-Committed :
    (fault : Option Thrown) (W : Type 0) (s : Memory W)
    → Committed (memory_with fault W) s (commit_or fault s)
commit_or-Committed none W s = (refl, refl, λ j. refl)
commit_or-Committed (some e) W s = ((refl, refl), λ j. refl)

find_row-update_rows :
    (where_id : Option String) (set : SchedulerSet) (rs : List Scheduler) (j : String)
    → find_row j (update_rows where_id set rs)
      ≡ (if selects where_id j then map_option (merge set) (find_row j rs) else find_row j rs)
find_row-update_rows none set [] j = refl
find_row-update_rows (some id) set [] j = ground arith
find_row-update_rows none set (r ∷ rs) j = ground (arith, find_row-update_rows none set rs j)
find_row-update_rows (some id) set (r ∷ rs) j =
    ground
      (arith, eq_iff id r.id, eq_iff r.id j, eq_iff id j, find_row-update_rows (some id) set rs j)

is_listed-remove :
    (id : String) (ks : List String) (j : String)
    → is_listed j (remove id ks) ≡ (if str_eq id j then false else is_listed j ks)
is_listed-remove id [] j = ground arith
is_listed-remove id (k ∷ ks) j =
    ground (arith, eq_iff id k, eq_iff k j, eq_iff id j, is_listed-remove id ks j)

pub memory_with-IsLawful : (fault : Option Thrown) (W : Type 0) → IsLawful (memory_with fault W)
memory_with-IsLawful fault W = record {
  row-effect = λ where_id set t j. find_row-update_rows where_id set t.schedulers j;
  row-effect_other = λ w t j. refl;
  find_scheduler_law = λ id s. (refl, (refl, refl), λ j. refl);
  find_active_law = λ s. ((refl, refl), λ j. refl);
  write_law = λ w s. (refl, refl, λ j. refl);
  connect_law = λ s. ((refl, refl), λ j. refl);
  start_law = λ s. (refl, refl, λ j. refl);
  write_in_law = λ w s. (refl, refl, λ j. refl);
  commit_law = commit_or-Committed fault W;
  rollback_law = λ s. (refl, λ j. refl);
  release_law = λ s. (refl, λ j. refl);
  delete_law = λ id s. ((refl, refl), λ j. is_listed-remove id s.jobs j);
  set_time_law = λ id cron s. ((refl, refl), λ j. refl);
  start_job_law = λ id s. ((refl, refl), λ j. refl);
}

pub memory-IsLawful : (W : Type 0) → IsLawful (memory W)
memory-IsLawful = memory_with-IsLawful none
