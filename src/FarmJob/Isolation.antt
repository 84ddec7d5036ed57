-- ===== src/FarmJob/Isolation.antt =====
-- The loop over the pids, where the work on a farm may throw.
use blockchain_task_server.Common.{ℕ, String, Option, some, false, List, ◌≡◌, arith}
use blockchain_task_server.Exceptions.{Thrown}
use blockchain_task_server.Effects.{ok, err, Action, for_each}
use blockchain_task_server.Effects.Returns.{Returns, try-Returns_of, all_calls, for_each-all_calls}
use blockchain_task_server.Platform.{Platform}
use blockchain_task_server.Template.{Local}
use blockchain_task_server.FarmJob.Loop.{FarmNotes, visit_catch, visit_finally, visit_with}

module _ {W S T : Type 0} (p : Platform W S T) (to_json : Thrown → Option String)
    (visit_try : ℕ → Action (Local S FarmNotes) (Unit {0})) where
  abbrev pub visit : ℕ → Action (Local S FarmNotes) (Unit {0})
  visit pid = visit_with p to_json (visit_try pid) pid

  -- The variables of `run` behind the visits of the pids, in their order, however each one ended.
  abbrev pub visits : List ℕ → Local S FarmNotes → Local S FarmNotes
  visits = all_calls visit

  module _ (rollback_returns : (s : S) → (p.rollback s).0 ≡ ok tt)
      (release_returns : (s : S) → (p.release s).0 ≡ ok tt)
      (stringifies : (pid : ℕ) (l : Local S FarmNotes) (e : Thrown)
        → (visit_try pid l).0 ≡ err e
        → (text : String) × (to_json e ≡ some text)) where
    visit_catch-Returns :
        (pid : ℕ) (e : Thrown) (text : String)
        → to_json e ≡ some text
        → Returns (visit_catch p to_json pid e)
    unfolding visit_catch
    visit_catch-Returns pid e text written l = ground (arith, written, rollback_returns l.env)

    visit_finally-Returns : Returns (visit_finally p to_json)
    unfolding visit_finally
    visit_finally-Returns l = ground (arith, release_returns l.env)

    visit-Returns : (pid : ℕ) → Returns (visit pid)
    unfolding visit_with
    visit-Returns pid l =
        try-Returns_of (visit_try pid) (visit_catch p to_json pid) (visit_finally p to_json)
          (record l { runner = false })
          (λ e thrown.
            let (text, written) = stringifies pid (record l { runner = false }) e thrown in
            visit_catch-Returns pid e text written)
          visit_finally-Returns

    -- If `rollbackTransaction` and `release` always return, and `JSON.stringify` returns for every error that
    -- the `try` block of a pid throws, then the loop of a farm job over its pids returns and has visited
    -- every pid in order, whatever these blocks do and throw.
    pub for_each-visits :
        (pids : List ℕ) (l : Local S FarmNotes) → for_each visit pids l ≡ (ok tt, visits pids l)
    for_each-visits = for_each-all_calls visit visit-Returns
