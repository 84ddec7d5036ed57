-- ===== src/RewarderJob/Units.antt =====
-- What the work on a pid leaves in the database.
use blockchain_task_server.Common.{
  ◌⊎◌, true, ℕ, String, Option, none, some, List, [], ◌∷◌, ◌≡◌, refl, ◌∙◌, inl, inr, Bool-cases,
  get_elem?, str_eq,
}
use blockchain_task_server.Effects.{Result, ok, err, pure, and_then, when, ◌>>=◌}
use blockchain_task_server.Effects.Rules.{Keeps, IsPreorder, bind-Keeps, if-Keeps}
use blockchain_task_server.Platform.{Platform, IsLawful, Write, other, SameData}
use blockchain_task_server.BigNumber.{BigNumberLib, number, is_zero}
use blockchain_task_server.Template.{on_env}
use blockchain_task_server.Template.Atomic.{
  Moved, Staged, in_transaction-Moved, after_read, after_read_of,
}
use blockchain_task_server.Template.Atomic.Staging.{GoesOn, read-Staged, read-Staged_of}
use blockchain_task_server.FarmJob.Yields.{FarmToken, Farm, get_farm_asset_name, farm_yield}
use blockchain_task_server.FarmJob.Loop.Tables.{Kept}
use blockchain_task_server.FarmJob.Loop.Writes
use blockchain_task_server.FarmJob.Loop.Writes.{
  Kinds, IsCreation, IsKnown, IsFound, nothing-Staged, inactive-Staged, refresh-Staged,
  create-Staged, end-Moved,
}
use blockchain_task_server.RewarderJob.{
  RewarderInfo, RewarderState, RewarderWrite, create_farm, update_farm, deactivate, RewarderContext,
  rewarder_value, get_farm_state, register_with, register_farm, refresh_with, refresh_found,
  refresh_farm, deactivate_farm, rewarder_token, ensure_farm, farm_writes, store, visit_info,
  visit_try,
}

pub SameData-IsPreorder : {W S T : Type 0} (p : Platform W S T) → IsPreorder (SameData p)
SameData-IsPreorder p = record {
  same = λ s. (refl, refl);
  chain = λ s t u h k. (k.0 ∙ h.0, k.1 ∙ h.1);
}

module _ {S T B : Type 0} (p : Platform RewarderWrite S T) (c : RewarderContext S B) where
  abbrev Creates : ℕ → RewarderWrite → Type 0
  Creates pid (create_farm at name stake rewards json) = at ≡ pid
  Creates pid _ = ⊥

  abbrev Refreshes : ℕ → RewarderWrite → Type 0
  Refreshes id (update_farm at yield json) = at ≡ id
  Refreshes id _ = ⊥

  abbrev kinds : Kinds RewarderWrite S
  kinds = record {
    Creates = Creates;
    Refreshes = Refreshes;
    end_of = deactivate;
    find_farm = c.find_farm;
    find_farm_in = c.find_farm_in;
  }

  -- The writes for one pid.
  abbrev pub IsVisit : List (Write RewarderWrite) → Type 0
  IsVisit = Writes.IsVisit p kinds

module _ {S T B : Type 0} (p : Platform RewarderWrite S T) (lawful : IsLawful p)
    (c : RewarderContext S B) where
  -- The calls of the job's context only read.
  pub record IsReader : Type 0 where
    pub total_reads : Keeps (SameData p) c.get_farm_total_length
    pub infos_reads : (pids : List ℕ) → Keeps (SameData p) (c.get_farm_infos pids)
    pub alloc_reads : Keeps (SameData p) c.get_farm_total_alloc_point
    pub reward_reads : Keeps (SameData p) c.get_farm_reward_per_second
    pub extra_reads :
        (rewarder : String) → Keeps (SameData p) (c.get_farm_rewarder_reward_per_second rewarder)
    pub extra_token_reads :
        (rewarder : String) → Keeps (SameData p) (c.get_farm_rewarder_reward_token rewarder)
    pub check_reads : (address : String) → Keeps (SameData p) (c.get_safe_check_ca address)
    pub balance_reads :
        (address : String) → Keeps (SameData p) (c.get_safe_erc20_balance_of address)
    pub farm_reads : (pid : ℕ) → Keeps (SameData p) (c.find_farm pid)
    pub farm_in_reads : (pid : ℕ) → Keeps (SameData p) (c.find_farm_in pid)
    pub token_reads : (address : String) → Keeps (SameData p) (c.find_token address)
    pub token_in_reads : (address : String) → Keeps (SameData p) (c.find_token_in address)

  module _ (reader : IsReader) (lib : BigNumberLib B) where
    rewarder_value-reads :
        (rewarder : String) (token : Option FarmToken)
        → Keeps (SameData p) (rewarder_value lib c rewarder token)
    unfolding rewarder_value
    rewarder_value-reads rewarder none = λ s. (refl, refl)
    rewarder_value-reads rewarder (some token) =
        if-Keeps (SameData p) (SameData-IsPreorder p) (str_eq rewarder c.zero_address) (pure _) _
          (λ s. (refl, refl))
          (bind-Keeps (SameData p) (SameData-IsPreorder p)
            (c.get_farm_rewarder_reward_per_second rewarder) _ (reader.extra_reads rewarder)
            λ n s. (refl, refl))

    get_farm_state-reads :
        (per_second : ℕ) (rewarder : String) (token : Option FarmToken)
        → Keeps (SameData p) (get_farm_state lib c per_second rewarder token)
    unfolding get_farm_state
    get_farm_state-reads per_second rewarder token =
        bind-Keeps (SameData p) (SameData-IsPreorder p) (rewarder_value lib c rewarder token) _
          (rewarder_value-reads rewarder token) λ extra s. (refl, refl)

    pub rewarder_token-reads :
        (rewarder : String) → Keeps (SameData p) (rewarder_token p lib c rewarder)
    unfolding rewarder_token
    rewarder_token-reads rewarder =
        bind-Keeps (SameData p) (SameData-IsPreorder p) (c.get_safe_check_ca rewarder) _
          (reader.check_reads rewarder)
          λ valid.
            if-Keeps (SameData p) (SameData-IsPreorder p) valid
              (c.get_farm_rewarder_reward_token rewarder >>= c.find_token) (pure none)
              (bind-Keeps (SameData p) (SameData-IsPreorder p)
                (c.get_farm_rewarder_reward_token rewarder) c.find_token
                (reader.extra_token_reads rewarder) reader.token_reads)
              (λ s. (refl, refl))

    module _ (made : List (Write RewarderWrite)) (s : S) (pid : ℕ)
        (creation : (made ≡ []) ⊎ IsCreation p (kinds p c) pid made) (info : RewarderInfo)
        (state : RewarderState) where
      -- What the call through the manager has returned, behind the writes.
      abbrev IsRead : Option Farm → Type 0
      IsRead found = (u : S) × (p.pending u ≡ made) × ((c.find_farm_in pid u).0 ≡ ok found)

      refresh_with-Staged :
          (value : B) (farm : Farm) (stakes : List FarmToken)
          → IsFound p (kinds p c) made pid farm
          → farm.status ≡ true
          → GoesOn p lawful
              (IsVisit p c)
              made
              s
              (refresh_with p lib c info state value farm.id stakes)
      unfolding refresh_with
      refresh_with-Staged value farm [] found active t same grown = same
      refresh_with-Staged value farm (stake ∷ stakes) found active t same grown =
          let farm_state = λ (n : ℕ).
            farm_yield lib info.alloc_point
              (record {
                total_alloc_point = state.total_alloc_point;
                reward_value_in_one_year = value;
              })
              stake n in
          let write : ℕ → RewarderWrite =
            λ n. update_farm farm.id (farm_state n) (c.rewarder_json info.rewarder) in
          read-Staged p lawful (IsVisit p c) made s t (λ n. p.write_in (other (write n)))
            (c.get_safe_erc20_balance_of stake.address t) same grown
            (reader.balance_reads stake.address t)
            λ n.
              refresh-Staged p (kinds p c) lawful pid made s farm (write n) creation found active
                refl

      refresh_found-Staged :
          (value : B) (found : Option Farm)
          → IsRead found
          → GoesOn p lawful (IsVisit p c) made s (refresh_found p lib c info state value found)
      unfolding refresh_found
      refresh_found-Staged value none found t same grown = same
      refresh_found-Staged value (some farm) found t same grown = elim (Bool-cases farm.status) [
        | inl active ↦
            rw active (refresh_with-Staged value farm farm.stake_tokens found active t same grown)
        | inr ended ↦
            rw ended (
              inactive-Staged p (kinds p c) lawful pid made s farm creation found ended t same
                grown)
      ]

      refresh_farm-Staged :
          (extra : Option FarmToken)
          → GoesOn p lawful (IsVisit p c) made s (refresh_farm p lib c pid info extra state)
      unfolding refresh_farm
      refresh_farm-Staged extra t same grown =
          read-Staged p lawful (IsVisit p c) made s t
            (λ value. c.find_farm_in pid >>= refresh_found p lib c info state value)
            (get_farm_state lib c state.reward_per_second info.rewarder extra t) same grown
            (get_farm_state-reads state.reward_per_second info.rewarder extra t)
            λ value u same' grown'.
              read-Staged_of p lawful (IsVisit p c) made s u
                (refresh_found p lib c info state value) (c.find_farm_in pid u) same' grown'
                (reader.farm_in_reads pid u)
                λ farm e. refresh_found-Staged value farm (u, grown', e)

    module _ (pid : ℕ) (state : RewarderState) (info : RewarderInfo) where
      after_token :
          (extra : Option FarmToken) (s : S) (x : Result (Option FarmToken) × S)
          → p.pending s ≡ []
          → SameData p s x.1
          → Staged p lawful (IsVisit p c) s (
              let y = and_then x.0 (register_with p lib c pid info.rewarder extra) x.1 in
              and_then y.0 (λ b. when b (refresh_farm p lib c pid info extra state)) y.1)
      unfolding register_with
      after_token (some extra) s (ok (some stake), t) empty (same, grown) =
          let w =
            create_farm pid (get_farm_asset_name (stake ∷ []) (c.reward_token ∷ extra ∷ [])) stake
              (c.reward_token ∷ extra ∷ []) (c.rewarder_json info.rewarder) in
          create-Staged p (kinds p c) lawful pid s t w
            (refresh_farm p lib c pid info (some extra) state) same (grown ∙ empty)
            (refresh_farm-Staged (other w ∷ []) s pid (inr (w, refl, refl)) info state (some extra))
      after_token none s (ok (some stake), t) empty (same, grown) =
          nothing-Staged p (kinds p c) lawful pid s t same (grown ∙ empty)
      after_token none s (ok none, t) empty (same, grown) =
          nothing-Staged p (kinds p c) lawful pid s t same (grown ∙ empty)
      after_token (some extra) s (ok none, t) empty (same, grown) =
          nothing-Staged p (kinds p c) lawful pid s t same (grown ∙ empty)
      after_token extra s (err e, t) empty (same, grown) = same

      farm_writes-Staged :
          (farm : Option Farm) (extra : Option FarmToken) (s : S)
          → p.pending s ≡ []
          → Staged p lawful (IsVisit p c) s (farm_writes p lib c pid state farm info extra s)
      unfolding farm_writes ensure_farm register_farm
      farm_writes-Staged none extra s empty =
          after_token extra s (c.find_token_in info.lp_token s) empty
            (reader.token_in_reads info.lp_token s)
      farm_writes-Staged (some farm) extra s empty =
          refresh_farm-Staged [] s pid (inl refl) info state extra s refl empty

    deactivate_farm-Moved :
        (pid : ℕ) (farm : Option Farm) (s : S)
        → IsKnown p (kinds p c) pid farm
        → Moved p lawful
            (IsVisit p c)
            (p.committed s)
            (p.committed (deactivate_farm p lib c farm s).1)
    unfolding deactivate_farm
    deactivate_farm-Moved pid none s known = inl refl
    deactivate_farm-Moved pid (some farm) s known = end-Moved p (kinds p c) lawful pid farm s known

    visit_info-Moved :
        (pid : ℕ) (state : RewarderState) (farm : Option Farm) (info : Option (Option RewarderInfo))
        → IsKnown p (kinds p c) pid farm
        → Kept p lawful c.to_json (IsVisit p c) (visit_info p lib c pid state farm info)
    unfolding visit_info store
    visit_info-Moved pid state farm none known l = inl refl
    visit_info-Moved pid state farm (some none) known l = inl refl
    visit_info-Moved pid state farm (some (some info)) known l =
        elim (Bool-cases (is_zero lib (number info.alloc_point))) [
          | inl zero ↦ rw zero (deactivate_farm-Moved pid farm l.env known)
          | inr live ↦ rw live (
              after_read p lawful (IsVisit p c) (λ x. x.env) l
                (on_env (rewarder_token p lib c info.rewarder) l)
                (store p lib c pid state farm info) (rewarder_token-reads info.rewarder l.env).0
                λ extra m.
                  in_transaction-Moved p lawful (IsVisit p c)
                    (farm_writes p lib c pid state farm info extra)
                    (farm_writes-Staged pid state info farm extra) m.env)
        ]

    pub visit_try-Moved :
        (state : RewarderState) (infos : List (Option RewarderInfo)) (pid : ℕ)
        → Kept p lawful c.to_json (IsVisit p c) (visit_try p lib c state infos pid)
    unfolding visit_try
    visit_try-Moved state infos pid l =
        after_read_of p lawful (IsVisit p c) (λ x. x.env) l (on_env (c.find_farm pid) l)
          (λ farm. visit_info p lib c pid state farm (get_elem? infos pid))
          (reader.farm_reads pid l.env).0
          λ farm m e. visit_info-Moved pid state farm (get_elem? infos pid) (l.env, e) m
