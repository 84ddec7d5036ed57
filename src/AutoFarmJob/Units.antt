-- ===== src/AutoFarmJob/Units.antt =====
-- What the work on a pid leaves in the database.
use blockchain_task_server.Common.{
  ◌⊎◌, true, false, ℕ, String, Bool, Option, none, some, List, [], ◌∷◌, ◌≡◌, refl, ◌∙◌, inl, inr,
  Bool-cases, get_elem?,
}
use blockchain_task_server.Effects.{Result, ok, err, and_then, when}
use blockchain_task_server.Effects.Rules.{Keeps}
use blockchain_task_server.Platform.{Platform, IsLawful, Write, other, SameData}
use blockchain_task_server.BigNumber.{BigNumberLib, number, is_zero}
use blockchain_task_server.Template.{on_env}
use blockchain_task_server.Template.Atomic.{
  Moved, Staged, in_transaction-Moved, after_read, after_read_of,
}
use blockchain_task_server.Template.Atomic.Staging.{GoesOn, read-Staged, read-Staged_of}
use blockchain_task_server.FarmJob.Yields.{FarmToken, Farm, FarmState, get_farm_asset_name}
use blockchain_task_server.FarmJob.Loop.Tables.{Kept}
use blockchain_task_server.FarmJob.Loop.Writes
use blockchain_task_server.FarmJob.Loop.Writes.{
  Kinds, IsCreation, IsKnown, IsFound, nothing-Staged, inactive-Staged, refresh-Staged,
  create-Staged, end-Moved,
}
use blockchain_task_server.AutoFarmJob.{
  StratInfo, StratWrite, create_farm, update_farm, deactivate, StratContext, register_with,
  register_farm, strat_yield, refresh_with, refresh_found, refresh_farm, deactivate_farm,
  ensure_farm, farm_writes, visit_valid, visit_info, visit_try,
}

module _ {S T B : Type 0} (p : Platform StratWrite S T) (c : StratContext S B) where
  abbrev Creates : ℕ → StratWrite → Type 0
  Creates pid (create_farm at name stake reward json) = at ≡ pid
  Creates pid _ = ⊥

  abbrev Refreshes : ℕ → StratWrite → Type 0
  Refreshes id (update_farm at yield json) = at ≡ id
  Refreshes id _ = ⊥

  abbrev kinds : Kinds StratWrite S
  kinds = record {
    Creates = Creates;
    Refreshes = Refreshes;
    end_of = deactivate;
    find_farm = c.find_farm;
    find_farm_in = c.find_farm_in;
  }

  -- The writes for one pid.
  abbrev pub IsVisit : List (Write StratWrite) → Type 0
  IsVisit = Writes.IsVisit p kinds

module _ {S T B : Type 0} (p : Platform StratWrite S T) (lawful : IsLawful p)
    (c : StratContext S B) where
  -- The calls of the job's context only read.
  pub record IsReader : Type 0 where
    pub total_reads : Keeps (SameData p) c.get_farm_total_length
    pub infos_reads : (pids : List ℕ) → Keeps (SameData p) (c.get_farm_infos pids)
    pub alloc_reads : Keeps (SameData p) c.get_farm_total_alloc_point
    pub reward_reads : Keeps (SameData p) c.get_farm_reward_per_block
    pub shares_reads : (strat : String) → Keeps (SameData p) (c.get_farm_strat_share_total strat)
    pub check_reads : (address : String) → Keeps (SameData p) (c.get_safe_check_ca address)
    pub farm_reads : (pid : ℕ) → Keeps (SameData p) (c.find_farm pid)
    pub farm_in_reads : (pid : ℕ) → Keeps (SameData p) (c.find_farm_in pid)
    pub token_in_reads : (address : String) → Keeps (SameData p) (c.find_token_in address)

  module _ (reader : IsReader) (lib : BigNumberLib B) where
    module _ (made : List (Write StratWrite)) (s : S) (pid : ℕ)
        (creation : (made ≡ []) ⊎ IsCreation p (kinds p c) pid made) (info : StratInfo)
        (state : FarmState B) where
      -- What the call through the manager has returned, behind the writes.
      abbrev IsRead : Option Farm → Type 0
      IsRead found = (u : S) × (p.pending u ≡ made) × ((c.find_farm_in pid u).0 ≡ ok found)

      refresh_with-Staged :
          (farm : Farm) (stakes : List FarmToken)
          → IsFound p (kinds p c) made pid farm
          → farm.status ≡ true
          → GoesOn p lawful (IsVisit p c) made s (refresh_with p lib c info state farm.id stakes)
      unfolding refresh_with
      refresh_with-Staged farm [] found active t same grown = same
      refresh_with-Staged farm (stake ∷ stakes) found active t same grown =
          let write : ℕ → StratWrite = λ n.
            update_farm farm.id (strat_yield p lib c info.alloc_point state stake n)
              (c.strat_json info.strat) in
          read-Staged p lawful (IsVisit p c) made s t (λ n. p.write_in (other (write n)))
            (c.get_farm_strat_share_total info.strat t) same grown
            (reader.shares_reads info.strat t)
            λ n.
              refresh-Staged p (kinds p c) lawful pid made s farm (write n) creation found active
                refl

      refresh_found-Staged :
          (found : Option Farm)
          → IsRead found
          → GoesOn p lawful (IsVisit p c) made s (refresh_found p lib c info state found)
      unfolding refresh_found
      refresh_found-Staged none found t same grown = same
      refresh_found-Staged (some farm) found t same grown = elim (Bool-cases farm.status) [
        | inl active ↦
            rw active (refresh_with-Staged farm farm.stake_tokens found active t same grown)
        | inr ended ↦
            rw ended (
              inactive-Staged p (kinds p c) lawful pid made s farm creation found ended t same
                grown)
      ]

      refresh_farm-Staged :
          GoesOn p lawful (IsVisit p c) made s (refresh_farm p lib c pid info state)
      unfolding refresh_farm
      refresh_farm-Staged t same grown =
          read-Staged_of p lawful (IsVisit p c) made s t (refresh_found p lib c info state)
            (c.find_farm_in pid t) same grown (reader.farm_in_reads pid t)
            λ farm e. refresh_found-Staged farm (t, grown, e)

    module _ (pid : ℕ) (state : FarmState B) (info : StratInfo) where
      after_token :
          (s : S) (x : Result (Option FarmToken) × S)
          → p.pending s ≡ []
          → SameData p s x.1
          → Staged p lawful (IsVisit p c) s (
              let y = and_then x.0 (register_with p lib c pid info.strat) x.1 in
              and_then y.0 (λ b. when b (refresh_farm p lib c pid info state)) y.1)
      unfolding register_with
      after_token s (ok none, t) empty (same, grown) =
          nothing-Staged p (kinds p c) lawful pid s t same (grown ∙ empty)
      after_token s (ok (some stake), t) empty (same, grown) =
          let w =
            create_farm pid (get_farm_asset_name (stake ∷ []) (c.reward_token ∷ [])) stake
              c.reward_token (c.strat_json info.strat) in
          create-Staged p (kinds p c) lawful pid s t w (refresh_farm p lib c pid info state) same
            (grown ∙ empty)
            (refresh_farm-Staged (other w ∷ []) s pid (inr (w, refl, refl)) info state)
      after_token s (err e, t) empty (same, grown) = same

      farm_writes-Staged :
          (farm : Option Farm) (s : S)
          → p.pending s ≡ []
          → Staged p lawful (IsVisit p c) s (farm_writes p lib c pid state farm info s)
      unfolding farm_writes ensure_farm register_farm
      farm_writes-Staged none s empty =
          after_token s (c.find_token_in info.want s) empty (reader.token_in_reads info.want s)
      farm_writes-Staged (some farm) s empty =
          refresh_farm-Staged [] s pid (inl refl) info state s refl empty

    deactivate_farm-Moved :
        (pid : ℕ) (farm : Option Farm) (s : S)
        → IsKnown p (kinds p c) pid farm
        → Moved p lawful
            (IsVisit p c)
            (p.committed s)
            (p.committed (deactivate_farm p lib c farm s).1)
    unfolding deactivate_farm
    deactivate_farm-Moved pid none s known = inl refl
    deactivate_farm-Moved pid (some farm) s known = end-Moved p (kinds p c) lawful pid farm s known

    visit_valid-Moved :
        (pid : ℕ) (state : FarmState B) (farm : Option Farm) (info : StratInfo) (valid : Bool)
        → IsKnown p (kinds p c) pid farm
        → Kept p lawful c.to_json
            (IsVisit p c)
            (when valid (visit_valid p lib c pid state farm info))
    unfolding visit_valid
    visit_valid-Moved pid state farm info false known l = inl refl
    visit_valid-Moved pid state farm info true known l =
        elim (Bool-cases (is_zero lib (number info.alloc_point))) [
          | inl zero ↦ rw zero (deactivate_farm-Moved pid farm l.env known)
          | inr live ↦ rw live (
              in_transaction-Moved p lawful (IsVisit p c) (farm_writes p lib c pid state farm info)
                (farm_writes-Staged pid state info farm) l.env)
        ]

    visit_info-Moved :
        (pid : ℕ) (state : FarmState B) (farm : Option Farm) (info : Option (Option StratInfo))
        → IsKnown p (kinds p c) pid farm
        → Kept p lawful c.to_json (IsVisit p c) (visit_info p lib c pid state farm info)
    unfolding visit_info
    visit_info-Moved pid state farm none known l = inl refl
    visit_info-Moved pid state farm (some none) known l = inl refl
    visit_info-Moved pid state farm (some (some info)) known l =
        after_read p lawful (IsVisit p c) (λ x. x.env) l (on_env (c.get_safe_check_ca info.strat) l)
          (λ valid. when valid (visit_valid p lib c pid state farm info))
          (reader.check_reads info.strat l.env).0
          λ valid. visit_valid-Moved pid state farm info valid known

    pub visit_try-Moved :
        (state : FarmState B) (infos : List (Option StratInfo)) (pid : ℕ)
        → Kept p lawful c.to_json (IsVisit p c) (visit_try p lib c state infos pid)
    unfolding visit_try
    visit_try-Moved state infos pid l =
        after_read_of p lawful (IsVisit p c) (λ x. x.env) l (on_env (c.find_farm pid) l)
          (λ farm. visit_info p lib c pid state farm (get_elem? infos pid))
          (reader.farm_reads pid l.env).0
          λ farm m e. visit_info-Moved pid state farm (get_elem? infos pid) (l.env, e) m
