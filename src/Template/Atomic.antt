-- ===== src/Template/Atomic.antt =====
-- The transaction around the writes of a template, and the handling of errors around it.
pub mod Staging
use mathlib.Core.Path.{subst}
use blockchain_task_server.Common.{
  String, Option, none, some, List, [], ◌∷◌, ◌++◌, ap, ◌≡◌, refl, ◌∙◌, ◌⊎◌, inl, inr, arith,
}
use blockchain_task_server.Entities.{Scheduler}
use blockchain_task_server.Exceptions.{Thrown}
use blockchain_task_server.Effects.{
  Result, ok, err, Action, recover, and_then, from_result, ◌>>◌, try_catch, try_finally,
}
use blockchain_task_server.Effects.Rules.{Keeps}
use blockchain_task_server.SchedulerJob.ErrorHandler.{error_handler}
use blockchain_task_server.Platform.{
  Platform, IsLawful, Write, apply_all, SameData, Found, Started, Committed, WroteIn,
}
use blockchain_task_server.Template.{
  Local, pid_of, scheduler_pid, in_transaction, roll_back, release_runner, guarded,
}

module _ {W S T : Type 0} (p : Platform W S T) (lawful : IsLawful p) where
  open p use {committed, pending, effect}

  pid_of-committed : (r : Option Scheduler) (s : S) → committed (pid_of {S = S} r s).1 ≡ committed s
  unfolding pid_of
  pid_of-committed none s = refl
  pid_of-committed (some r) s = refl

  after_find :
      (id : String) (s : S) (x : Result (Option Scheduler) × S)
      → Found p id s x
      → committed (and_then x.0 pid_of x.1).1 ≡ committed s
  after_find id s (ok r, t) h = pid_of-committed r t ∙ h.1.0
  after_find id s (err e, t) h = h.1.0

  -- `schedulerPid` only reads.
  pub scheduler_pid-committed :
      (id : String) (s : S) → committed (scheduler_pid p id s).1 ≡ committed s
  unfolding scheduler_pid
  scheduler_pid-committed id s =
      after_find id s (p.find_scheduler id s) (lawful.find_scheduler_law id s)

  -- The tables stay as they are, or take a list of writes that meets the predicate.
  abbrev pub Moved : (List (Write W) → Type 0) → T → T → Type 0
  Moved G before after =
      (after ≡ before) ⊎ ((ws : List (Write W)) × G ws × (after ≡ apply_all effect ws before))

  -- Writes that are staged, and reach a list that meets the predicate when they return.
  abbrev pub Staged : (List (Write W) → Type 0) → S → Result (Unit {0}) × S → Type 0
  Staged G s (ok _, t) = (committed t ≡ committed s) × G (pending t)
  Staged G s (err e, t) = committed t ≡ committed s

  module _ (G : List (Write W) → Type 0) where
    pub Moved-same : (a b c : T) → Moved G a b → c ≡ b → Moved G a c
    Moved-same a b c (inl h) e = inl (e ∙ h)
    Moved-same a b c (inr (ws, g, h)) e = inr (ws, g, e ∙ h)

    after_commit :
        (t : S) (y : Result (Unit {0}) × S)
        → Committed p t y
        → G (pending t)
        → Moved G (committed t) (committed y.1)
    after_commit t (ok _, u) (e, _, _) g = inr (pending t, g, e)
    after_commit t (err x, u) (same, _) g = inl same.0

    module _ (writes : Action S (Unit {0}))
        (stages : (s : S) → pending s ≡ [] → Staged G s (writes s)) where
      after_writes :
          (s : S) (x : Result (Unit {0}) × S)
          → Staged G s x
          → Moved G (committed s) (committed (and_then x.0 (λ _. p.commit) x.1).1)
      after_writes s (ok _, t) (same, g) =
          subst (λ a. Moved G a (committed (p.commit t).1)) same
            (after_commit t (p.commit t) (lawful.commit_law t) g)
      after_writes s (err e, t) h = inl h

      -- A transaction that has begun changes nothing, or performs all of its writes.
      pub commit-Moved :
          (s : S) → pending s ≡ [] → Moved G (committed s) (committed ((writes >> p.commit) s).1)
      commit-Moved s empty = after_writes s (writes s) (stages s empty)

      after_start :
          (s : S) (x : Result (Unit {0}) × S)
          → Started p s x
          → Moved G (committed s) (committed (and_then x.0 (λ _. writes >> p.commit) x.1).1)
      after_start s (ok _, t) (same, empty, _) =
          subst (λ a. Moved G a (committed ((writes >> p.commit) t).1)) same (commit-Moved t empty)
      after_start s (err e, t) (same, _) = inl same.0

      after_connect :
          (s : S) (x : Result (Unit {0}) × S)
          → SameData p s x.1
          → Moved G
              (committed s)
              (committed (and_then x.0 (λ _. p.start_transaction >> (writes >> p.commit)) x.1).1)
      after_connect s (ok _, t) same =
          subst (λ a. Moved G a (committed ((p.start_transaction >> (writes >> p.commit)) t).1))
            same.0 (after_start t (p.start_transaction t) (lawful.start_law t))
      after_connect s (err e, t) same = inl same.0

      -- A transaction changes nothing, or performs all of its writes.
      pub in_transaction-Moved :
          (s : S) → Moved G (committed s) (committed (in_transaction p writes s).1)
      unfolding in_transaction
      in_transaction-Moved s = after_connect s (p.connect s) (lawful.connect_law s).0

    -- The rest of a block behind a call that only reads, over any state with a platform's in it, by what the
    -- call has returned.
    pub after_read_of :
        {L A : Type 0} (env : L → S) (l : L) (x : Result A × L) (f : A → Action L (Unit {0}))
        → committed (env x.1) ≡ committed (env l)
        → ((a : A) (m : L) → x.0 ≡ ok a → Moved G (committed (env m)) (committed (env (f a m).1)))
        → Moved G (committed (env l)) (committed (env (and_then x.0 f x.1).1))
    after_read_of env l (ok a, m) f same h =
        subst (λ t. Moved G t (committed (env (f a m).1))) same (h a m refl)
    after_read_of env l (err e, m) f same h = inl same

    pub after_read :
        {L A : Type 0} (env : L → S) (l : L) (x : Result A × L) (f : A → Action L (Unit {0}))
        → committed (env x.1) ≡ committed (env l)
        → ((a : A) (m : L) → Moved G (committed (env m)) (committed (env (f a m).1)))
        → Moved G (committed (env l)) (committed (env (and_then x.0 f x.1).1))
    after_read env l x f same h = after_read_of env l x f same (λ a m _. h a m)

    module _ {L : Type 0} (env : L → S) where
      abbrev pub SameTables : L → L → Type 0
      SameTables l m = committed (env m) ≡ committed (env l)

      recover-SameTables :
          (handler : Thrown → Action L (Unit {0})) (x : Result (Unit {0}) × L)
          → ((e : Thrown) → Keeps SameTables (handler e))
          → SameTables x.1 (recover x.0 handler x.1).1
      recover-SameTables handler (ok _, l) h = refl
      recover-SameTables handler (err e, l) h = h e l

      released :
          (r : Result (Unit {0})) (y : Result (Unit {0}) × L)
          → SameTables y.1 (and_then y.0 (λ _. from_result r) y.1).1
      released r (ok _, l) = refl
      released r (err e, l) = refl

      -- A `try` block whose handler and cleanup leave the tables as they are.
      pub try-Moved :
          (attempt : Action L (Unit {0})) (handler : Thrown → Action L (Unit {0}))
          (cleanup : Action L (Unit {0})) (l : L)
          → ((e : Thrown) → Keeps SameTables (handler e))
          → Keeps SameTables cleanup
          → Moved G (committed (env l)) (committed (env (attempt l).1))
          → Moved G
              (committed (env l))
              (committed (env (try_finally (try_catch attempt handler) cleanup l).1))
      try-Moved attempt handler cleanup l hh hc h =
          let x = attempt l in
          let y = recover x.0 handler x.1 in
          Moved-same _ _ _ h
            (released y.0 (cleanup y.1) ∙ (hc y.1 ∙ recover-SameTables handler x hh))

    module _ {D : Type 0} where
      roll_back-committed :
          (e : Thrown) → Keeps (SameTables (λ (x : Local S D). x.env)) (roll_back p e)
      unfolding roll_back error_handler
      roll_back-committed e l = ground (arith, lawful.rollback_law l.env)

      release_runner-committed : Keeps (SameTables (λ (x : Local S D). x.env)) (release_runner p)
      unfolding release_runner
      release_runner-committed l = ground (arith, lawful.release_law l.env)

      pub guarded-Moved :
          (attempt : Action (Local S D) (Unit {0})) (l : Local S D)
          → Moved G (committed l.env) (committed (attempt l).1.env)
          → Moved G (committed l.env) (committed (guarded p attempt l).1.env)
      unfolding guarded
      guarded-Moved attempt l =
          try-Moved (λ (x : Local S D). x.env) attempt (roll_back p) (release_runner p) l
            roll_back-committed release_runner-committed
