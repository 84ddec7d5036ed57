-- ===== src/Template/Interaction/Writes.antt =====
-- What a `run` of the interaction template leaves in the database.
use blockchain_task_server.Common.{
  ℕ, String, true, false, Option, none, some, List, [], ◌∷◌, ◌++◌, ◌≡◌, refl, ◌∙◌, ap, inl, inr,
  Bool-cases, if◌then◌else◌,
}
use blockchain_task_server.Effects.{
  Result, ok, err, Action, pure, and_then, modify, map_each, ◌>>=◌, ◌>>◌,
}
use blockchain_task_server.Effects.Rules.{Keeps, unchanged-IsPreorder, bind-Keeps, map_each-Keeps}
use blockchain_task_server.Entities.{Scheduler, no_columns}
use blockchain_task_server.Platform.{
  Platform, IsLawful, Write, update_scheduler, other, WroteIn, SameData, Found,
}
use blockchain_task_server.BigNumber.{
  BigNumberLib, number, sub, is_greater_than_or_equal, to_number,
}
use blockchain_task_server.Arrays.{fill_sequence_number, flat}
use blockchain_task_server.SchedulerJob.{World, on_env as on_world}
use blockchain_task_server.Template.{Local, on_env, chunk_end}
use blockchain_task_server.Template.Atomic.{
  Moved, Staged, in_transaction-Moved, after_read, guarded-Moved,
}
use blockchain_task_server.Template.Interaction.{
  Interaction, InteractionContext, InteractionNotes, Response, failed, block, non_empty, block_of,
  get_scheduler_block_number, bulk_create, update_scheduler_block_number,
  parse_contract_interaction_transaction, parse_response, store, crawl, work_on, run,
}

module _ {S T : Type 0} (p : Platform (List Interaction) S T) (lawful : IsLawful p) (id : String)
    (c : InteractionContext S) where
  -- The calls of the job's context only read.
  pub record IsReader : Type 0 where
    pub block_number_reads : Keeps (SameData p) c.get_block_number
    pub block_infos_reads : (bs : List ℕ) → Keeps (SameData p) (c.get_batch_block_infos bs)
    pub check_ca_reads : (ts : List String) → Keeps (SameData p) (c.get_batch_check_ca ts)

  abbrev last_block : ℕ → Write (List Interaction)
  last_block end = update_scheduler (some id) (record no_columns { block_number = some end })

  -- The calls of the blocks, and then the scheduler's block number.
  abbrev pub IsBlocks : List (Write (List Interaction)) → Type 0
  IsBlocks ws = (end : ℕ) × (params : List Interaction) × (ws ≡ other params ∷ last_block end ∷ [])

  after_update :
      (params : List Interaction) (end : ℕ) (s t : S) (y : Result (Unit {0}) × S)
      → p.committed t ≡ p.committed s
      → p.pending t ≡ other params ∷ []
      → WroteIn p (last_block end) t y
      → Staged p lawful IsBlocks s y
  after_update params end s t (ok _, u) same grown (same', grown', _) =
      (same' ∙ same, (end, params, grown' ∙ ap (λ xs. xs ++ (last_block end ∷ [])) grown))
  after_update params end s t (err e, u) same grown ((same', _), _) = same' ∙ same

  after_create :
      (params : List Interaction) (end : ℕ) (s : S) (x : Result (Unit {0}) × S)
      → p.pending s ≡ []
      → WroteIn p (other params) s x
      → Staged p lawful IsBlocks s
          (and_then x.0 (λ _. update_scheduler_block_number p id c end) x.1)
  unfolding update_scheduler_block_number
  after_create params end s (ok _, t) empty (same, grown, _) =
      after_update params end s t (p.write_in (last_block end) t) same
        (grown ∙ ap (λ xs. xs ++ (other params ∷ [])) empty)
        (lawful.write_in_law (last_block end) t)
  after_create params end s (err e, t) empty ((same, _), _) = same

  store-Moved :
      (params : List Interaction) (end : ℕ) (s : S)
      → Moved p lawful IsBlocks (p.committed s) (p.committed (store p id c params end s).1)
  unfolding store bulk_create
  store-Moved params end =
      in_transaction-Moved p lawful IsBlocks
        (bulk_create p id c params >> update_scheduler_block_number p id c end)
        λ s empty.
          after_create params end s (p.write_in (other params) s) empty
            (lawful.write_in_law (other params) s)

  abbrev Same : S → S → Type 0
  Same s t = p.committed t ≡ p.committed s

  block_of-committed : (r : Option Scheduler) (s : S) → Same s (block_of {S = S} r s).1
  unfolding block_of
  block_of-committed none s = refl
  block_of-committed (some r) s = refl

  after_find :
      (s : S) (x : Result (Option Scheduler) × S)
      → Found p id s x
      → Same s (and_then x.0 block_of x.1).1
  after_find s (ok r, t) h = block_of-committed r t ∙ h.1.0
  after_find s (err e, t) h = h.1.0

  pub get_scheduler_block_number-committed :
      (s : S) → p.committed (get_scheduler_block_number p id c s).1 ≡ p.committed s
  unfolding get_scheduler_block_number
  get_scheduler_block_number-committed s =
      after_find s (p.find_scheduler id s) (lawful.find_scheduler_law id s)

  module _ (reader : IsReader) where
    parse_response-Same : (r : Response) → Keeps Same (parse_response p id c r)
    unfolding parse_response parse_contract_interaction_transaction
    parse_response-Same failed = λ s. refl
    parse_response-Same (block []) = λ s. refl
    parse_response-Same (block (t ∷ ts)) =
        bind-Keeps Same (unchanged-IsPreorder p.committed) (c.get_batch_check_ca _) _
          (λ s. (reader.check_ca_reads _ s).0) λ checks s. refl

    module _ {B : Type 0} (lib : BigNumberLib B) where
      crawl-Moved :
          (s end : ℕ) (l : Local S InteractionNotes)
          → Moved p lawful IsBlocks
              (p.committed l.env)
              (p.committed (crawl p id c lib s end l).1.env)
      unfolding crawl
      crawl-Moved s end l =
          let blocks = fill_sequence_number (to_number lib (sub lib (number end) (number s))) s in
          after_read p lawful IsBlocks (λ x. x.env) l (on_env (c.get_batch_block_infos blocks) l)
            (λ responses. on_env (map_each (parse_response p id c) responses) >>= λ params.
              modify (λ l. record l { runner = true })
              >> on_env (store p id c (flat (non_empty params)) end))
            (reader.block_infos_reads blocks l.env).0
            λ responses m.
              after_read p lawful IsBlocks (λ x. x.env) m
                (on_env (map_each (parse_response p id c) responses) m)
                (λ params.
                  modify (λ l. record l { runner = true })
                  >> on_env (store p id c (flat (non_empty params)) end))
                (map_each-Keeps Same (unchanged-IsPreorder p.committed) (parse_response p id c)
                  responses parse_response-Same m.env)
                λ params k. store-Moved (flat (non_empty params)) end k.env

      abbrev after_numbers : ℕ → ℕ → Action (World S) (Unit {0})
      after_numbers s n =
          if is_greater_than_or_equal lib (number s) (number n)
          then pure tt
          else work_on p id c lib n s (chunk_end lib c.chunk_size s n)

      after_numbers-Moved :
          (s n : ℕ) (w : World S)
          → Moved p lawful IsBlocks (p.committed w.env) (p.committed (after_numbers s n w).1.env)
      unfolding work_on
      after_numbers-Moved s n w =
          elim (Bool-cases (is_greater_than_or_equal lib (number s) (number n))) [
            | inl done ↦ rw done (inl refl)
            | inr more ↦ rw more (
                let end = chunk_end lib c.chunk_size s n in
                let l : Local S InteractionNotes = record {
                  env = w.env;
                  runner = false;
                  notes = record { total = n; start = s; end = end };
                } in
                guarded-Moved p lawful IsBlocks (crawl p id c lib s end) l (crawl-Moved s end l))
          ]

      -- If the calls of the job's context only read, a `run` of the interaction template changes nothing
      -- in the tables, or performs the write of the calls and the update of the scheduler's block number
      -- together.
      pub run_atomic :
          (w : World S)
          → Moved p lawful IsBlocks (p.committed w.env) (p.committed (run p id c lib w).1.env)
      unfolding run
      run_atomic w =
          after_read p lawful IsBlocks (λ x. x.env) w
            (on_world (get_scheduler_block_number p id c) w)
            (λ s. on_world c.get_block_number >>= after_numbers s)
            (get_scheduler_block_number-committed w.env)
            λ s v.
              after_read p lawful IsBlocks (λ x. x.env) v (on_world c.get_block_number v)
                (after_numbers s) (reader.block_number_reads v.env).0 (after_numbers-Moved s)
