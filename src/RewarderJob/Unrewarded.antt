-- ===== src/RewarderJob/Unrewarded.antt =====
-- Farms without a token of their rewarder.
use blockchain_task_server.Common.{
  ℕ, false, Option, none, some, List, [], ◌≡◌, ◌∙◌, inl, inr, get_elem?,
}
use blockchain_task_server.Effects.{Result, ok, err, and_then, when}
use blockchain_task_server.Platform.{Platform, IsLawful, Write, SameData}
use blockchain_task_server.BigNumber.{BigNumberLib, number, is_zero}
use blockchain_task_server.Template.{Local, on_env}
use blockchain_task_server.Template.Atomic.{
  Moved, Staged, in_transaction-Moved, after_read, try-Moved,
}
use blockchain_task_server.FarmJob.Yields.{FarmToken, Farm}
use blockchain_task_server.FarmJob.Loop.{FarmNotes, visit_catch, visit_finally, visit_with}
use blockchain_task_server.FarmJob.Loop.Tables.{visit_catch-committed, visit_finally-committed}
use blockchain_task_server.RewarderJob.{
  RewarderInfo, RewarderState, RewarderWrite, RewarderContext, register_with, register_farm,
  refresh_farm, rewarder_token, ensure_farm, farm_writes, store, visit_info, visit_try,
}
use blockchain_task_server.RewarderJob.Units.{IsReader, rewarder_token-reads}

abbrev IsNothing : List (Write RewarderWrite) → Type 0
IsNothing ws = ws ≡ []

module _ {S T B : Type 0} (p : Platform RewarderWrite S T) (lawful : IsLawful p)
    (c : RewarderContext S B) (reader : IsReader p lawful c) (lib : BigNumberLib B) (pid : ℕ)
    (state : RewarderState) (infos : List (Option RewarderInfo)) (info : RewarderInfo) where
  after_token :
      (s : S) (x : Result (Option FarmToken) × S)
      → p.pending s ≡ []
      → SameData p s x.1
      → Staged p lawful IsNothing s (
          let y = and_then x.0 (register_with p lib c pid info.rewarder none) x.1 in
          and_then y.0 (λ b. when b (refresh_farm p lib c pid info none state)) y.1)
  unfolding register_with
  after_token s (ok (some stake), t) empty (same, grown) = (same, grown ∙ empty)
  after_token s (ok none, t) empty (same, grown) = (same, grown ∙ empty)
  after_token s (err e, t) empty (same, grown) = same

  farm_writes-Staged :
      (s : S)
      → p.pending s ≡ []
      → Staged p lawful IsNothing s (farm_writes p lib c pid state none info none s)
  unfolding farm_writes ensure_farm register_farm
  farm_writes-Staged s empty =
      after_token s (c.find_token_in info.lp_token s) empty (reader.token_in_reads info.lp_token s)

  after_extra :
      (l : Local S FarmNotes) (y : Result (Option FarmToken) × Local S FarmNotes)
      → y.0 ≡ ok none
      → p.committed y.1.env ≡ p.committed l.env
      → Moved p lawful IsNothing
          (p.committed l.env)
          (p.committed (and_then y.0 (store p lib c pid state none info) y.1).1.env)
  unfolding store
  after_extra l (ok none, m) e same =
      after_read p lawful IsNothing (λ x. x.env) l (ok tt, m)
        (λ (_ : Unit {0}). store p lib c pid state none info none) same
        λ _ n.
          in_transaction-Moved p lawful IsNothing (farm_writes p lib c pid state none info none)
            farm_writes-Staged n.env
  after_extra l (ok (some token), m) e same = cc
  after_extra l (err z, m) e same = cc

  after_farm :
      (l : Local S FarmNotes) (x : Result (Option Farm) × S)
      → x.0 ≡ ok none
      → (rewarder_token p lib c info.rewarder x.1).0 ≡ ok none
      → get_elem? infos pid ≡ some (some info)
      → is_zero lib (number info.alloc_point) ≡ false
      → p.committed x.1 ≡ p.committed l.env
      → Moved p lawful IsNothing (p.committed l.env) (
          p.committed
            (and_then x.0
              (λ farm. visit_info p lib c pid state farm (get_elem? infos pid))
              (record l { env = x.1 })).1.env)
  unfolding visit_info
  after_farm l (ok none, t) e unrewarded listed live same =
      rw (listed, live)
        (after_extra l (on_env (rewarder_token p lib c info.rewarder) (record l { env = t }))
          unrewarded ((rewarder_token-reads p lawful c reader lib info.rewarder t).0 ∙ same))
  after_farm l (ok (some farm), t) e unrewarded listed live same = cc
  after_farm l (err z, t) e unrewarded listed live same = cc

  nothing-same : (a b : T) → Moved p lawful IsNothing a b → b ≡ a
  nothing-same a b (inl e) = e
  nothing-same a b (inr (ws, none_written, e)) = rw none_written at e

  -- If the calls of the job's context only read, the contract tells of a pid with points whose farm has no
  -- row, and its rewarder is no contract or has no active token, then the work on this pid leaves the
  -- tables as they are: the farm is not registered.
  pub visit_with-unrewarded :
      (l : Local S FarmNotes)
      → (c.find_farm pid l.env).0 ≡ ok none
      → (rewarder_token p lib c info.rewarder (c.find_farm pid l.env).1).0 ≡ ok none
      → get_elem? infos pid ≡ some (some info)
      → is_zero lib (number info.alloc_point) ≡ false
      → p.committed (visit_with p c.to_json (visit_try p lib c state infos pid) pid l).1.env
        ≡ p.committed l.env
  unfolding visit_with visit_try
  visit_with-unrewarded l unknown unrewarded listed live = nothing-same _ _ (
      try-Moved p lawful IsNothing (λ x. x.env) (visit_try p lib c state infos pid)
        (visit_catch p c.to_json pid) (visit_finally p c.to_json) (record l { runner = false })
        (visit_catch-committed p lawful c.to_json IsNothing pid)
        (visit_finally-committed p lawful c.to_json IsNothing)
        (after_farm (record l { runner = false }) (c.find_farm pid l.env) unknown unrewarded listed
          live (reader.farm_reads pid l.env).0))
