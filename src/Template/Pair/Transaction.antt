-- ===== src/Template/Pair/Transaction.antt =====
-- What a `run` of the pair template leaves in the database.
use blockchain_task_server.Common.{
  ℕ, String, true, some, List, [], ◌∷◌, ◌++◌, ◌≡◌, refl, ◌∙◌, ap, inl, inr, All, Bool-cases,
  if◌then◌else◌,
}
use blockchain_task_server.Effects.{Result, ok, err, Action, pure, and_then, modify, ◌>>=◌, ◌>>◌}
use blockchain_task_server.Entities.{no_columns}
use blockchain_task_server.Platform.{Platform, IsLawful, Write, update_scheduler, WroteIn}
use blockchain_task_server.BigNumber.{
  BigNumberLib, number, sub, is_greater_than_or_equal, to_number,
}
use blockchain_task_server.Arrays.{fill_sequence_number}
use blockchain_task_server.SchedulerLogger.{LogValue}
use blockchain_task_server.Template.{Local, on_env, on_notes, scheduler_pid, chunk_end}
use blockchain_task_server.Template.Atomic.{
  scheduler_pid-committed, Moved, Staged, in_transaction-Moved, after_read, guarded-Moved,
}
use blockchain_task_server.Template.Pair.Data.{TokenParams, PairContext}
use blockchain_task_server.Template.Pair.Staging.{IsOther, IsReader, Adds, do_task-Adds}
use blockchain_task_server.Template.Pair.{PairNotes, do_task, move_on, store, crawl, attempt, body}

module _ {S T : Type 0} (p : Platform (List TokenParams) S T) (lawful : IsLawful p) (id : String)
    (c : PairContext S) (reader : IsReader p lawful id c) where
  -- Writes of tokens, and at last the scheduler's `pid`.
  abbrev pub IsWindow : List (Write (List TokenParams)) → Type 0
  IsWindow ws =
      (end : ℕ) × (tokens : List (Write (List TokenParams))) × All IsOther tokens
      × (ws ≡ tokens ++ (update_scheduler (some id) (record no_columns { pid = some end }) ∷ []))

  moved_on :
      (end : ℕ) (s t : S) (y : Result (Unit {0}) × S)
      → p.pending s ≡ []
      → Adds p lawful id c s t
      → WroteIn p (update_scheduler (some id) (record no_columns { pid = some end })) t y
      → Staged p lawful IsWindow s y
  moved_on end s t (ok _, u) empty (same, ws, others, grown) (same', grown', _) =
      let last = update_scheduler (some id) (record no_columns { pid = some end }) in
      (
        same' ∙ same,
        (
          end,
          ws,
          others,
          grown' ∙ ap (λ xs. xs ++ (last ∷ [])) (grown ∙ ap (λ xs. xs ++ ws) empty),
        ),
      )
  moved_on end s t (err e, u) empty (same, _, _, _) ((same', _), _) = same' ∙ same

  after_task :
      (end : ℕ) (s : S) (x : Result (Unit {0}) × S)
      → p.pending s ≡ []
      → Adds p lawful id c s x.1
      → Staged p lawful IsWindow s (and_then x.0 (λ _. move_on p id c end) x.1)
  unfolding move_on
  after_task end s (ok _, t) empty added =
      let last = update_scheduler (some id) (record no_columns { pid = some end }) in
      moved_on end s t (p.write_in last t) empty added (lawful.write_in_law last t)
  after_task end s (err e, t) empty (same, _, _, _) = same

  writes-Staged :
      (tokens : List String) (end : ℕ) (s : S)
      → p.pending s ≡ []
      → Staged p lawful IsWindow s ((do_task p id c tokens >> move_on p id c end) s)
  writes-Staged tokens end s empty =
      after_task end s (do_task p id c tokens s) empty (do_task-Adds p lawful id c reader tokens s)

  store-Moved :
      (tokens : List String) (end : ℕ) (s : S)
      → Moved p lawful IsWindow (p.committed s) (p.committed (store p id c tokens end s).1)
  unfolding store
  store-Moved tokens end =
      in_transaction-Moved p lawful IsWindow (do_task p id c tokens >> move_on p id c end)
        (writes-Staged tokens end)

  module _ {B : Type 0} (lib : BigNumberLib B) where
    abbrev Goes : Action (Local S PairNotes) (Unit {0}) → Local S PairNotes → Type 0
    Goes m l = Moved p lawful IsWindow (p.committed l.env) (p.committed (m l).1.env)

    crawl-Moved : (s end : ℕ) (l : Local S PairNotes) → Goes (crawl p id c lib s end) l
    unfolding crawl
    crawl-Moved s end l =
        let pids = fill_sequence_number (to_number lib (sub lib (number end) (number s))) s in
        let noted : Local S PairNotes = record l {
          notes = record l.notes { start = LogValue.number s; end = LogValue.number end };
        } in
        after_read p lawful IsWindow (λ x. x.env) noted
          (on_env (c.get_amm_factory_infos pids) noted)
          (λ tokens. modify (λ l. record l { runner = true }) >> on_env (store p id c tokens end))
          (reader.amm_infos_reads pids l.env).0 λ tokens m. store-Moved tokens end m.env

    -- The rest of the `try` block behind its two reads.
    abbrev after_pids : ℕ → ℕ → Action (Local S PairNotes) (Unit {0})
    after_pids n s =
        on_notes (λ notes. record notes { total = LogValue.number n; current = LogValue.number s })
        >> (if is_greater_than_or_equal lib (number s) (number n)
            then pure tt
            else crawl p id c lib s (chunk_end lib 10 s n))

    after_pids-Moved : (n s : ℕ) (l : Local S PairNotes) → Goes (after_pids n s) l
    after_pids-Moved n s l =
        elim (Bool-cases (is_greater_than_or_equal lib (number s) (number n))) [
          | inl done ↦ rw done (inl refl)
          | inr more ↦ rw more (
              crawl-Moved s (chunk_end lib 10 s n) (record l {
                notes = record l.notes { total = LogValue.number n; current = LogValue.number s };
              }))
        ]

    attempt-Moved : (l : Local S PairNotes) → Goes (attempt p id c lib) l
    unfolding attempt
    attempt-Moved l =
        after_read p lawful IsWindow (λ x. x.env) l (on_env c.get_amm_factory_total_length l)
          (λ n. on_env (scheduler_pid p id) >>= after_pids n) (reader.total_reads l.env).0
          λ n m.
            after_read p lawful IsWindow (λ x. x.env) m (on_env (scheduler_pid p id) m)
              (after_pids n) (scheduler_pid-committed p lawful id m.env) (after_pids-Moved n)

    -- If the calls of the job's context only read, a `run` of the pair template changes nothing in the
    -- tables, or performs the writes of tokens and the update of the scheduler's `pid` together.
    pub body_atomic :
        (l : Local S PairNotes)
        → Moved p lawful IsWindow (p.committed l.env) (p.committed (body p id c lib l).1.env)
    unfolding body
    body_atomic l = guarded-Moved p lawful IsWindow (attempt p id c lib) l (attempt-Moved l)
