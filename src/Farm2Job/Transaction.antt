-- ===== src/Farm2Job/Transaction.antt =====
-- The transaction of a pid, which is not committed.
use blockchain_task_server.Common.{ℕ, String, Option, none, some, List, [], ◌∷◌, ◌≡◌, refl, true}
use blockchain_task_server.Effects.{Result, ok, err, Action, and_then, pure, when, ◌>>=◌, ◌>>◌}
use blockchain_task_server.Effects.Rules.{Keeps, unchanged-IsPreorder, bind-Keeps, when-Keeps}
use blockchain_task_server.Platform.{Platform, Write, WroteIn}
use blockchain_task_server.BigNumber.{BigNumberLib}
use blockchain_task_server.FarmJob.Yields.{FarmToken}
use blockchain_task_server.Farm2Job.{
  Farm2Info, Farm2, Farm2Write, Farm2Context, register_with, register_farm, refresh_rewards,
  refresh_with, refresh_found, refresh_farm, ensure_farm, store,
}

module _ {S T B : Type 0} (p : Platform Farm2Write S T) (c : Farm2Context S B) where
  abbrev pub Same : S → S → Type 0
  Same s t = p.committed t ≡ p.committed s

  -- The calls of the job's context only read.
  pub record IsReader : Type 0 where
    pub block_reads : Keeps Same c.get_block_number
    pub total_reads : Keeps Same c.get_farm2_total_length
    pub infos_reads : (n : ℕ) → Keeps Same (c.get_farm2_infos n)
    pub balance_reads :
        (token holder : String) → Keeps Same (c.get_safe_erc20_balance_of token holder)
    pub farm_reads : (address : String) (pid : ℕ) → Keeps Same (c.find_farm address pid)
    pub farm_in_reads : (address : String) (pid : ℕ) → Keeps Same (c.find_farm_in address pid)
    pub token_reads : (address : String) → Keeps Same (c.find_token address)

  abbrev then_same :
      {A D : Type 0} (m : Action S A) (f : A → Action S D)
      → Keeps Same m
      → ((a : A) → Keeps Same (f a))
      → Keeps Same (m >>= f)
  then_same = bind-Keeps Same (unchanged-IsPreorder p.committed)

  wrote_in-Same :
      (w : Write Farm2Write) (s : S) (x : Result (Unit {0}) × S) → WroteIn p w s x → Same s x.1
  wrote_in-Same w s (ok _, t) h = h.0
  wrote_in-Same w s (err e, t) h = h.0.0

  started :
      (x : Result (Unit {0}) × S) (rest : Action S (Unit {0}))
      → Keeps Same rest
      → p.committed (and_then x.0 (λ _. rest) x.1).1 ≡ p.committed x.1
  started (ok _, t) rest h = h t
  started (err e, t) rest h = refl

  connected :
      (x : Result (Unit {0}) × S) (start rest : Action S (Unit {0}))
      → Keeps Same rest
      → p.committed (and_then x.0 (λ _. start >> rest) x.1).1
        ≡ p.committed (and_then x.0 (λ _. start) x.1).1
  connected (ok _, t) start rest h = started (start t) rest h
  connected (err e, t) start rest h = refl

  module _ (reader : IsReader)
      (write_in_law : (w : Write Farm2Write) (s : S) → WroteIn p w s (p.write_in w s))
      (lib : BigNumberLib B) where
    write_in-Same : (w : Write Farm2Write) → Keeps Same (p.write_in w)
    write_in-Same w s = wrote_in-Same w s (p.write_in w s) (write_in_law w s)

    register_with-Same :
        (address : String) (pid : ℕ) (stake reward : Option FarmToken)
        → Keeps Same (register_with p lib c address pid stake reward)
    unfolding register_with
    register_with-Same address pid (some stake) (some reward) =
        then_same (p.write_in _) (λ _. pure true) (write_in-Same _) λ _ s. refl
    register_with-Same address pid none reward = λ s. refl
    register_with-Same address pid (some stake) none = λ s. refl

    refresh_rewards-Same :
        (reward : String) (id : ℕ) (stake : FarmToken) (balance : ℕ) (tokens : List FarmToken)
        → Keeps Same (refresh_rewards p lib c reward id stake balance tokens)
    unfolding refresh_rewards
    refresh_rewards-Same reward id stake balance [] = λ s. refl
    refresh_rewards-Same reward id stake balance (token ∷ tokens) = write_in-Same _

    refresh_with-Same :
        (address reward : String) (id : ℕ) (stakes rewards : List FarmToken)
        → Keeps Same (refresh_with p lib c address reward id stakes rewards)
    unfolding refresh_with
    refresh_with-Same address reward id [] rewards = λ s. refl
    refresh_with-Same address reward id (stake ∷ stakes) rewards =
        then_same (c.get_safe_erc20_balance_of stake.address address) _
          (reader.balance_reads stake.address address)
          λ balance. refresh_rewards-Same reward id stake balance rewards

    refresh_found-Same :
        (address reward : String) (farm : Option Farm2)
        → Keeps Same (refresh_found p lib c address reward farm)
    unfolding refresh_found
    refresh_found-Same address reward none = λ s. refl
    refresh_found-Same address reward (some farm) =
        when-Keeps Same (unchanged-IsPreorder p.committed) farm.status _
          (refresh_with-Same address reward farm.id farm.stake_tokens farm.reward_tokens)

    ensure_farm-Same :
        (pid : ℕ) (info : Farm2Info) (farm : Option Farm2)
        → Keeps Same (ensure_farm p lib c pid info farm)
    unfolding ensure_farm register_farm
    ensure_farm-Same pid info none =
        then_same (c.find_token info.stake_token) _ (reader.token_reads info.stake_token) λ stake.
          then_same (c.find_token info.earn_token) _ (reader.token_reads info.earn_token)
            λ reward. register_with-Same info.id pid stake reward
    ensure_farm-Same pid info (some farm) = λ s. refl

    -- The registration and the refresh of a pid.
    writes-Same :
        (pid : ℕ) (info : Farm2Info) (farm : Option Farm2)
        → Keeps Same (
            ensure_farm p lib c pid info farm >>= λ initialized.
            when initialized (refresh_farm p lib c pid info))
    unfolding refresh_farm
    writes-Same pid info farm =
        then_same (ensure_farm p lib c pid info farm) _ (ensure_farm-Same pid info farm)
          λ initialized. when-Keeps Same (unchanged-IsPreorder p.committed) initialized _ (
            then_same (c.find_farm_in info.id pid) _ (reader.farm_in_reads info.id pid)
              (refresh_found-Same info.id info.reward))

    -- If the calls of the job's context only read, and a write through the manager changes nothing that is
    -- committed, then the work on a pid from `connect` to its end leaves the tables as `connect` and
    -- `startTransaction` alone do: it commits none of its writes, whatever it registers and refreshes.
    pub store-uncommitted :
        (pid : ℕ) (info : Farm2Info) (farm : Option Farm2) (s : S)
        → p.committed (store p lib c pid info farm s).1
          ≡ p.committed ((p.connect >> p.start_transaction) s).1
    unfolding store
    store-uncommitted pid info farm s =
        connected (p.connect s) p.start_transaction _ (writes-Same pid info farm)
