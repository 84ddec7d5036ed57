-- ===== src/SchedulerJobService/Reset.antt =====
-- What `start` does to the marks and the rows of the schedulers.
use mathlib.Core.Path.{subst}
use text.Mathlib.TextEquality.{eq_iff}
use blockchain_task_server.Common.{
  String, true, false, not, none, some, List, ◌≡◌, refl, ◌∙◌, sym, ap, Bool-cases, inl, inr,
  if◌then◌else◌, str_eq, OnSome, OnSome-of,
}
use blockchain_task_server.Effects.{ok, pure, ◌>>◌}
use blockchain_task_server.Effects.Rules.{
  Keeps, IsPreorder, try_catch-Keeps, for_each-Keeps, pure-Keeps,
}
use blockchain_task_server.Effects.Returns.{and_then-returns}
use blockchain_task_server.Entities.{Scheduler, SchedulerSet, no_columns}
use blockchain_task_server.Platform.{
  Platform, IsLawful, update_scheduler, map_option, merge, SameRegistry,
}
use blockchain_task_server.Platform.Rows.{
  row, row-update_ne, row-update_cases, row-update_all, registered-update, registered-update_all,
  map_option-some,
}
use blockchain_task_server.SchedulerJobService.{start_one, start_each, start}

abbrev pub cleared : SchedulerSet
cleared = record no_columns { process = some false }

module _ {W S T : Type 0} (p : Platform W S T) (lawful : IsLawful p) where
  -- A step of the loop: the rows of registered schedulers stay, and no row gains the mark.
  record Steps (s t : S) : Type 0 where
    pub registry : SameRegistry p s t
    pub rows : (j : String) → p.registered s j ≡ true → row p t j ≡ row p s j
    pub marks :
        (j : String) (r : Scheduler)
        → row p t j ≡ some r
        → (q : Scheduler) × (row p s j ≡ some q) × (r.process ≡ q.process)

  Steps-refl : (s : S) → Steps s s
  Steps-refl s = record { registry = λ j. refl; rows = λ j h. refl; marks = λ j r h. (r, h, refl) }

  Steps-trans : (s t u : S) → Steps s t → Steps t u → Steps s u
  Steps-trans s t u a b = record {
    registry = λ j. b.registry j ∙ a.registry j;
    rows = λ j h. b.rows j (a.registry j ∙ h) ∙ a.rows j h;
    marks = λ j r h.
        let (q, hq, eq) = b.marks j r h in
        let (q', hq', eq') = a.marks j q hq in (q', hq', eq ∙ eq');
  }

  Steps-preorder : IsPreorder Steps
  Steps-preorder = record { same = Steps-refl; chain = Steps-trans }

  start_job-Steps : (id : String) → Keeps Steps (p.start_job id)
  start_job-Steps id s =
      let ((same, _), registry) = lawful.start_job_law id s in
      let kept : (j : String) → row p (p.start_job id s).1 j ≡ row p s j =
        λ j. ap (λ d. p.scheduler_row d j) same in
      record {
        registry = registry;
        rows = λ j h. kept j;
        marks = λ j r h. (r, sym (kept j) ∙ h, refl);
      }

  registered_ne :
      (s : S) (id j : String)
      → p.registered s id ≡ false
      → p.registered s j ≡ true
      → str_eq id j ≡ false
  registered_ne s id j absent listed = elim (Bool-cases (str_eq id j)) [
    | inl e ↦ absurd (cc (ap (p.registered s) ((eq_iff id j).0 e)))
    | inr e ↦ e
  ]

  retire-Steps :
      (id : String) (s : S)
      → p.registered s id ≡ false
      → Steps s
          (p.write (update_scheduler (some id) (record no_columns { status = some false })) s).1
  retire-Steps id s absent =
      let set : SchedulerSet = record no_columns { status = some false } in
      record {
        registry = registered-update p lawful id set s;
        rows = λ j listed. row-update_ne p lawful id set s j (registered_ne s id j absent listed);
        marks = λ j r h. elim (row-update_cases p lawful (some id) set s j) [
          | inl e ↦ (r, sym e ∙ h, refl)
          | inr e ↦
              let (q, found, same) = map_option-some set _ (sym e ∙ h) in
              (q, found, ap (λ (x : Scheduler). x.process) same)
        ];
      }

  start_on : (r : Scheduler) (s : S) → p.registered s r.id ≡ true → Steps s (start_one p r s).1
  unfolding start_one
  start_on r s listed =
      subst
        (λ b.
          Steps s
            ((if not b
                then p.write
                    (update_scheduler (some r.id) (record no_columns { status = some false }))
                else p.start_job r.id)
              s).1)
        (sym listed) (start_job-Steps r.id s)

  start_off : (r : Scheduler) (s : S) → p.registered s r.id ≡ false → Steps s (start_one p r s).1
  unfolding start_one
  start_off r s absent =
      subst
        (λ b.
          Steps s
            ((if not b
                then p.write
                    (update_scheduler (some r.id) (record no_columns { status = some false }))
                else p.start_job r.id)
              s).1)
        (sym absent) (retire-Steps r.id s absent)

  start_one-Steps : (r : Scheduler) → Keeps Steps (start_one p r)
  start_one-Steps r s = elim (Bool-cases (p.registered s r.id)) [
    | inl listed ↦ start_on r s listed
    | inr absent ↦ start_off r s absent
  ]

  start_each-Steps : (rs : List Scheduler) → Keeps Steps (start_each p rs)
  unfolding start_each
  start_each-Steps rs = for_each-Keeps Steps Steps-preorder _ rs λ r.
      try_catch-Keeps Steps Steps-preorder (start_one p r) (λ e. pure tt) (start_one-Steps r)
        (λ e. pure-Keeps Steps Steps-preorder tt)

  -- Everything behind the search, given how the write ended.
  start_rest-clears :
      (schedulers : List Scheduler) (s : S) (j : String)
      → let t = (p.write (update_scheduler none cleared) s).1 in
        (p.write (update_scheduler none cleared) s).0 ≡ ok tt
        → ((r : Scheduler) → row p (start_each p schedulers t).1 j ≡ some r → r.process ≡ false)
          × (p.registered s j ≡ true
              → row p (start_each p schedulers t).1 j ≡ map_option (merge cleared) (row p s j))
  start_rest-clears schedulers s j e =
      let t = (p.write (update_scheduler none cleared) s).1 in
      let steps = start_each-Steps schedulers t in
      let wiped = row-update_all p lawful cleared s j e in
      (
        λ r h.
            let (q, found, same) = steps.marks j r h in
            let (_, _, blank) = map_option-some cleared (row p s j) (sym wiped ∙ found) in
            same ∙ ap (λ (x : Scheduler). x.process) blank,
        λ listed. steps.rows j (registered-update_all p lawful cleared s j ∙ listed) ∙ wiped,
      )

  -- What `start` promises of a scheduler, from the state before to the state after.
  abbrev Clears : String → S → S → Type 0
  Clears j s t =
      ((r : Scheduler) → row p t j ≡ some r → r.process ≡ false)
      × (p.registered s j ≡ true → row p t j ≡ map_option (merge cleared) (row p s j))

  write-Clears :
      (schedulers : List Scheduler) (s : S) (j : String)
      → ((p.write (update_scheduler none cleared) >> start_each p schedulers) s).0 ≡ ok tt
      → Clears j s ((p.write (update_scheduler none cleared) >> start_each p schedulers) s).1
  write-Clears schedulers s j =
      and_then-returns (Clears j s) (p.write (update_scheduler none cleared) s)
        (λ _. start_each p schedulers) (λ _ e _. start_rest-clears schedulers s j e)

  start-Clears : (s : S) (j : String) → (start p s).0 ≡ ok tt → Clears j s (start p s).1
  unfolding start
  start-Clears s j =
      let ((same, _), registry) = lawful.find_active_law s in
      and_then-returns (Clears j s) (p.find_active_schedulers s)
        (λ rs. p.write (update_scheduler none cleared) >> start_each p rs)
        λ rs _ e.
          let (idle, kept) = write-Clears rs (p.find_active_schedulers s).1 j e in
          (
            idle,
            λ listed.
                kept (registry j ∙ listed)
                ∙ ap (λ d. map_option (merge cleared) (p.scheduler_row d j)) same,
          )

  -- When `start` returns, no scheduler is marked as working.
  pub start_unmarks :
      (s : S) (j : String)
      → (start p s).0 ≡ ok tt
      → OnSome (λ r. r.process ≡ false) (row p (start p s).1 j)
  start_unmarks s j e = OnSome-of _ _ (start-Clears s j e).0

  -- When `start` returns, the row of a registered scheduler differs from what it was only in the mark of
  -- working, which is cleared.
  pub start_keeps :
      (s : S) (j : String)
      → (start p s).0 ≡ ok tt
      → p.registered s j ≡ true
      → row p (start p s).1 j ≡ map_option (merge cleared) (row p s j)
  start_keeps s j e = (start-Clears s j e).1
