-- ===== src/Template/Nft/Outcomes.antt =====
-- What a `run` of the NFT template leaves in the database, on every path.
use blockchain_task_server.Common.{
  ℕ, String, true, Bool-cases, if◌then◌else◌, List, ◌≡◌, ◌≢◌, ◌⊎◌, inl, inr, refl, ap, ◌∙◌, sym,
  arith,
}
use mathlib.Core.Path.{subst}
use blockchain_task_server.Exceptions.{Thrown}
use blockchain_task_server.Effects.{
  Result, ok, err, Action, recover, from_result, and_then, pure, modify, ◌>>=◌, ◌>>◌,
}
use blockchain_task_server.Arrays.{fill_sequence_number}
use blockchain_task_server.Template.{Local, on_env, on_notes, scheduler_pid, chunk_end}
use blockchain_task_server.SchedulerLogger.{LogValue}
use blockchain_task_server.Platform.{Platform, IsLawful, other}
use blockchain_task_server.BigNumber.{
  BigNumberLib, number, sub, to_number, is_greater_than_or_equal,
}
use blockchain_task_server.SchedulerJob.ErrorHandler.{error_handler}
use blockchain_task_server.Template.Atomic.{scheduler_pid-committed}
use blockchain_task_server.Template.Nft.Store.{advance, store-ok, store-err}
use blockchain_task_server.Template.Nft.{NftNotes, store, crawl, attempt, handle, finish, body}

module _ {N S T : Type 0} (p : Platform (List N) S T) (lawful : IsLawful p) (id : String) where
  -- How the tables after a call relate to those before it, given how the call ended.
  abbrev pub Stored : Result (Unit {0}) → T → T → Type 0
  Stored (ok _) before after =
      (after ≡ before)
      ⊎ ((end : ℕ) × (tokens : List N) × (after
            ≡ p.effect (other tokens) (p.effect (advance p lawful id end) before)))
  Stored (err _) before after =
      (after ≡ before) ⊎ ((end : ℕ) × (after ≡ p.effect (advance p lawful id end) before))

  store-Stored :
      (tokens : List N) (end : ℕ) (s : S) (x : Result (Unit {0}) × S)
      → x ≡ store p id tokens end s
      → Stored x.0 (p.committed s) (p.committed x.1)
  store-Stored tokens end s (ok _, t) e = inr (
    end,
    tokens,
    ap (λ x. p.committed x.1) e ∙ store-ok p lawful id tokens end s (ap (λ x. x.0) (sym e)),
  )
  store-Stored tokens end s (err z, t) e =
      elim (store-err p lawful id tokens end s z (ap (λ x. x.0) (sym e))) [
        | inl same ↦ inl (ap (λ x. p.committed x.1) e ∙ same)
        | inr moved ↦ inr (end, ap (λ x. p.committed x.1) e ∙ moved)
      ]

  module _ {B : Type 0} (lib : BigNumberLib B) (network_pid : Action S ℕ)
      (crawl_nf_tokens : List ℕ → Action S (List N))
      (network_reads : (s : S) → p.committed (network_pid s).1 ≡ p.committed s)
      (crawl_reads : (pids : List ℕ) (s : S)
        → p.committed (crawl_nf_tokens pids s).1 ≡ p.committed s) where
    abbrev store_next : ℕ → List N → Action (Local S NftNotes) (Unit {0})
    store_next end tokens =
        modify (λ l. record l { runner = true }) >> on_env (store p id tokens end)

    after_crawl :
        (end : ℕ) (l : Local S NftNotes) (x : Result (List N) × S)
        → p.committed x.1 ≡ p.committed l.env
        → let y = and_then x.0 (store_next end) (record l { env = x.1 }) in
          Stored y.0 (p.committed l.env) (p.committed y.1.env)
    after_crawl end l (ok tokens, t) h =
        subst
          (λ before.
            Stored (store p id tokens end t).0 before (p.committed (store p id tokens end t).1))
          h (store-Stored tokens end t (store p id tokens end t) refl)
    after_crawl end l (err e, t) h = inl h

    crawl-Stored :
        (s end : ℕ) (l : Local S NftNotes)
        → let y = crawl p id lib network_pid crawl_nf_tokens s end l in
          Stored y.0 (p.committed l.env) (p.committed y.1.env)
    unfolding crawl
    crawl-Stored s end l =
        after_crawl end _
          (crawl_nf_tokens
            (fill_sequence_number (to_number lib (sub lib (number end) (number s))) s) l.env)
          (crawl_reads _ l.env)

    -- The rest of the `try` block behind each of its first two calls.
    abbrev after_pids : ℕ → ℕ → Action (Local S NftNotes) (Unit {0})
    after_pids n s =
        on_notes (λ notes. record notes { total = LogValue.number n })
        >> (if is_greater_than_or_equal lib (number s) (number n)
            then pure tt
            else crawl p id lib network_pid crawl_nf_tokens s (chunk_end lib 10 s n))

    after_pids-Stored :
        (n s : ℕ) (l : Local S NftNotes)
        → let y = after_pids n s l in Stored y.0 (p.committed l.env) (p.committed y.1.env)
    after_pids-Stored n s l =
        elim (Bool-cases (is_greater_than_or_equal lib (number s) (number n))) [
          | inl done ↦ rw done (inl refl)
          | inr more ↦ rw more (
              crawl-Stored s (chunk_end lib 10 s n)
                (record l { notes = record l.notes { total = LogValue.number n } }))
        ]

    after_scheduler-Stored :
        (n : ℕ) (l : Local S NftNotes) (x : Result ℕ × S)
        → p.committed x.1 ≡ p.committed l.env
        → let y = and_then x.0 (after_pids n) (record l { env = x.1 }) in
          Stored y.0 (p.committed l.env) (p.committed y.1.env)
    after_scheduler-Stored n l (ok s, t) h =
        let y = after_pids n s (record l { env = t }) in
        subst (λ before. Stored y.0 before (p.committed y.1.env)) h
          (after_pids-Stored n s (record l { env = t }))
    after_scheduler-Stored n l (err e, t) h = inl h

    after_network-Stored :
        (l : Local S NftNotes) (x : Result ℕ × S)
        → p.committed x.1 ≡ p.committed l.env
        → let y =
            and_then x.0
              (λ n. on_env (scheduler_pid p id) >>= after_pids n)
              (record l { env = x.1 }) in
          Stored y.0 (p.committed l.env) (p.committed y.1.env)
    after_network-Stored l (ok n, t) h =
        let y = (on_env (scheduler_pid p id) >>= after_pids n) (record l { env = t }) in
        subst (λ before. Stored y.0 before (p.committed y.1.env)) h
          (after_scheduler-Stored n (record l { env = t }) (scheduler_pid p id t)
            (scheduler_pid-committed p lawful id t))
    after_network-Stored l (err e, t) h = inl h

    attempt-Stored :
        (l : Local S NftNotes)
        → let y = attempt p id lib network_pid crawl_nf_tokens l in
          Stored y.0 (p.committed l.env) (p.committed y.1.env)
    unfolding attempt
    attempt-Stored l = after_network-Stored l (network_pid l.env) (network_reads l.env)

    handle-committed :
        (e : Thrown) (l : Local S NftNotes)
        → let y = handle p id lib network_pid crawl_nf_tokens e l in
          (p.committed y.1.env ≡ p.committed l.env) × (y.0 ≢ ok tt)
    unfolding handle error_handler
    handle-committed e l = ground (arith, lawful.rollback_law l.env)

    finish-committed :
        (l : Local S NftNotes)
        → p.committed (finish p id lib network_pid crawl_nf_tokens l).1.env ≡ p.committed l.env
    unfolding finish
    finish-committed l = ground (arith, lawful.rollback_law l.env)

    -- The tables after a call, given its result: as before; moved on by a call that throws; or moved
    -- on and with the tokens written.
    abbrev pub Outcome : Result (Unit {0}) × Local S NftNotes → T → Type 0
    Outcome x before =
        (p.committed x.1.env ≡ before)
        ⊎ ((end : ℕ) × (p.committed x.1.env ≡ p.effect (advance p lawful id end) before)
            × (x.0 ≢ ok tt))
        ⊎ ((end : ℕ) × (tokens : List N) × (p.committed x.1.env
              ≡ p.effect (other tokens) (p.effect (advance p lawful id end) before)))

    recover-Outcome :
        (x : Result (Unit {0}) × Local S NftNotes) (before : T)
        → Stored x.0 before (p.committed x.1.env)
        → Outcome (recover x.0 (handle p id lib network_pid crawl_nf_tokens) x.1) before
    recover-Outcome (ok _, l) before (inl h) = inl h
    recover-Outcome (ok _, l) before (inr h) = inr (inr h)
    recover-Outcome (err e, l) before h =
        let (kept, fails) = handle-committed e l in
        elim h [
          | inl same ↦ inl (kept ∙ same)
          | inr (end, moved) ↦ inr (inl (end, kept ∙ moved, fails))
        ]

    after_finish-Outcome :
        (r : Result (Unit {0})) (l : Local S NftNotes) (before : T)
        → Outcome (r, l) before
        → (y : Result (Unit {0}) × Local S NftNotes) → p.committed y.1.env ≡ p.committed l.env
        → Outcome (and_then y.0 (λ _. from_result r) y.1) before
    after_finish-Outcome r l before h (ok _, v) kept = elim h [
      | inl same ↦ inl (kept ∙ same)
      | inr (inl (end, moved, fails)) ↦ inr (inl (end, kept ∙ moved, fails))
      | inr (inr (end, tokens, stored)) ↦ inr (inr (end, tokens, kept ∙ stored))
    ]
    after_finish-Outcome r l before h (err e, v) kept = elim h [
      | inl same ↦ inl (kept ∙ same)
      | inr (inl (end, moved, _)) ↦ inr (inl (end, kept ∙ moved, λ eq. cc))
      | inr (inr (end, tokens, stored)) ↦ inr (inr (end, tokens, kept ∙ stored))
    ]

    finish-Outcome :
        (x : Result (Unit {0}) × Local S NftNotes) (before : T)
        → Outcome x before
        → Outcome ((finish p id lib network_pid crawl_nf_tokens >> from_result x.0) x.1) before
    finish-Outcome (r, l) before h =
        after_finish-Outcome r l before h (finish p id lib network_pid crawl_nf_tokens l)
          (finish-committed l)

    -- If the network and the crawl change nothing that is committed, a `run` of the template changes
    -- nothing in the tables; or it throws and has moved the scheduler's `pid` on
    -- without the tokens; or it has moved it on and written the tokens of one crawl.
    pub body_outcomes :
        (l : Local S NftNotes)
        → Outcome (body p id lib network_pid crawl_nf_tokens l) (p.committed l.env)
    unfolding body
    body_outcomes l =
        let x = attempt p id lib network_pid crawl_nf_tokens l in
        finish-Outcome (recover x.0 (handle p id lib network_pid crawl_nf_tokens) x.1)
          (p.committed l.env) (recover-Outcome x (p.committed l.env) (attempt-Stored l))
