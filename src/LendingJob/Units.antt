-- ===== src/LendingJob/Units.antt =====
-- What a `run` of the lending job leaves in the database.
use mathlib.Core.Path.{subst}
use blockchain_task_server.Common.{
  ℕ, String, false, Option, none, some, List, [], ◌∷◌, ◌++◌, ◌≡◌, refl, sym, ◌⊎◌, inl, inr,
  Bool-cases, arith,
}
use blockchain_task_server.Exceptions.{Thrown}
use blockchain_task_server.Effects.{Result, ok, err, ◌>>=◌}
use blockchain_task_server.Effects.Rules.{Keeps}
use blockchain_task_server.Platform.{Platform, IsLawful, Write, other, Wrote, SameData}
use blockchain_task_server.BigNumber.{BigNumberLib}
use blockchain_task_server.SchedulerLogger.{LogValue}
use blockchain_task_server.Template.{Local, on_env}
use blockchain_task_server.Template.Atomic.{
  Moved, Staged, in_transaction-Moved, after_read, try-Moved,
}
use blockchain_task_server.Template.Pair.Addresses.{is_zero_address}
use blockchain_task_server.Template.Atomic.Staging.{
  write_in-Staged, last_write-Staged, read-Staged, registered,
}
use blockchain_task_server.LendingJob.Markets.{
  LendingToken, MarketInfo, Lending, LendingValues, LendingWrite, create_lending, update_lending,
  disable_lending, LendingContext, lending_values,
}
use blockchain_task_server.LendingJob.{
  register_lending_market, market_liquidity, refresh_lending_market, ensure_market, market_writes,
  store_market, visit_market, visit_token, market_try, market_catch, market_finally, crawl_market,
}

-- The writes for one market: its row loses its status; or it gets new values, behind its creation if it was
-- not there.
abbrev pub IsVisit : List (Write LendingWrite) → Type 0
IsVisit ws =
    (token : LendingToken) × (market : String) × ((ws ≡ other (disable_lending token market) ∷ [])
      ⊎ ((values : LendingValues) × ((ws ≡ other (update_lending token market values) ∷ [])
            ⊎ (ws
                ≡ other (create_lending token market)
                  ∷ other (update_lending token market values)
                  ∷ []))))

module _ {S T B : Type 0} (p : Platform LendingWrite S T) (lawful : IsLawful p)
    (c : LendingContext S B) where
  -- The calls of the job's context only read.
  pub record IsReader : Type 0 where
    pub markets_reads : Keeps (SameData p) c.get_lending_all_markets
    pub infos_reads : (market : String) → Keeps (SameData p) (c.get_lending_market_infos market)
    pub balance_reads : (market : String) → Keeps (SameData p) (c.get_balance market)
    pub erc20_reads :
        (token market : String) → Keeps (SameData p) (c.get_safe_erc20_balance_of token market)
    pub token_reads : (address : String) → Keeps (SameData p) (c.find_token address)
    pub lending_reads :
        (token : LendingToken) (market : String) → Keeps (SameData p) (c.find_lending token market)

  module _ (reader : IsReader) (lib : BigNumberLib B) where
    liquidity-SameData :
        (token : LendingToken) (market : String)
        → Keeps (SameData p) (market_liquidity p lib c token market)
    unfolding market_liquidity is_zero_address
    liquidity-SameData token market s = elim (Bool-cases (is_zero_address token.address)) [
      | inl native ↦ rw native (reader.balance_reads market s)
      | inr contract ↦ rw contract (reader.erc20_reads token.address market s)
    ]

    -- The refresh of a market, behind writes with which it makes a visit.
    module _ (token : LendingToken) (market : String) (info : MarketInfo) where
      abbrev update_with : ℕ → Write LendingWrite
      update_with liquidity =
          other (update_lending token market (lending_values lib c token info liquidity))

      refresh-Staged :
          (ws : List (Write LendingWrite)) (s t : S)
          → ((n : ℕ) → IsVisit (ws ++ (update_with n ∷ [])))
          → p.committed t ≡ p.committed s
          → p.pending t ≡ ws
          → Staged p lawful IsVisit s (refresh_lending_market p lib c token market info t)
      unfolding refresh_lending_market
      refresh-Staged ws s t g same grown =
          read-Staged p lawful IsVisit ws s t (λ n. p.write_in (update_with n))
            (market_liquidity p lib c token market t) same grown (liquidity-SameData token market t)
            λ n u same' grown'.
              last_write-Staged p lawful IsVisit (update_with n) ws s u
                (p.write_in (update_with n) u) same' grown' (lawful.write_in_law (update_with n) u)
                (g n)

      market_writes-Staged :
          (lending : Option Lending) (s : S)
          → p.pending s ≡ []
          → Staged p lawful IsVisit s (market_writes p lib c token market info lending s)
      unfolding market_writes ensure_market register_lending_market
      market_writes-Staged none s empty =
          subst (Staged p lawful IsVisit s)
            (sym (
              registered (p.write_in (other (create_lending token market)) s)
                (refresh_lending_market p lib c token market info)))
            (write_in-Staged p lawful IsVisit (other (create_lending token market)) [] s s
              (refresh_lending_market p lib c token market info)
              (p.write_in (other (create_lending token market)) s) refl empty
              (lawful.write_in_law (other (create_lending token market)) s)
              λ t.
                refresh-Staged (other (create_lending token market) ∷ []) s t
                  λ n. (token, market, inr (lending_values lib c token info n, inr refl)))
      market_writes-Staged (some lending) s empty =
          refresh-Staged [] s s
            (λ n. (token, market, inr (lending_values lib c token info n, inl refl))) refl empty

    abbrev Kept : (Local S LogValue → Result (Unit {0}) × Local S LogValue) → Type 0
    Kept m =
        (l : Local S LogValue)
        → Moved p lawful IsVisit (p.committed l.env) (p.committed (m l).1.env)

    store_market-Moved :
        (token : LendingToken) (market : String) (info : MarketInfo) (lending : Option Lending)
        → Kept (store_market p lib c token market info lending)
    unfolding store_market
    store_market-Moved token market info lending l =
        in_transaction-Moved p lawful IsVisit (market_writes p lib c token market info lending)
          (market_writes-Staged token market info lending) l.env

    disabled-Moved :
        (token : LendingToken) (market : String) (s : S) (x : Result (Unit {0}) × S)
        → Wrote p (other (disable_lending token market)) s x
        → Moved p lawful IsVisit (p.committed s) (p.committed x.1)
    disabled-Moved token market s (ok _, t) (e, _, _) =
        inr (other (disable_lending token market) ∷ [], (token, market, inl refl), e)
    disabled-Moved token market s (err e, t) ((same, _), _) = inl same

    visit_market-Moved :
        (token : LendingToken) (market : String) (info : MarketInfo) (lending : Option Lending)
        → Kept (visit_market p lib c token market info lending)
    unfolding visit_market
    visit_market-Moved token market info none l = store_market-Moved token market info none l
    visit_market-Moved token market info (some lending) l = elim (Bool-cases info.is_listed) [
      | inl listed ↦ rw listed (store_market-Moved token market info (some lending) l)
      | inr gone ↦ rw gone (
          disabled-Moved token market l.env (p.write (other (disable_lending token market)) l.env)
            (lawful.write_law (other (disable_lending token market)) l.env))
    ]

    visit_token-Moved :
        (market : String) (info : MarketInfo) (token : Option LendingToken)
        → Kept (visit_token p lib c market info token)
    unfolding visit_token
    visit_token-Moved market info none l = inl refl
    visit_token-Moved market info (some token) l =
        after_read p lawful IsVisit (λ x. x.env) l (on_env (c.find_lending token market) l)
          (visit_market p lib c token market info) (reader.lending_reads token market l.env).0
          (visit_market-Moved token market info)

    market_try-Moved : (market : String) → Kept (market_try p lib c market)
    unfolding market_try
    market_try-Moved market l =
        after_read p lawful IsVisit (λ x. x.env) l (on_env (c.get_lending_market_infos market) l)
          (λ info. on_env (c.find_token info.underlying) >>= visit_token p lib c market info)
          (reader.infos_reads market l.env).0
          λ info m.
            after_read p lawful IsVisit (λ x. x.env) m (on_env (c.find_token info.underlying) m)
              (visit_token p lib c market info) (reader.token_reads info.underlying m.env).0
              (visit_token-Moved market info)

    market_catch-committed :
        (e : Thrown) (l : Local S LogValue)
        → p.committed (market_catch p lib c e l).1.env ≡ p.committed l.env
    unfolding market_catch
    market_catch-committed e l = ground (arith, lawful.rollback_law l.env)

    market_finally-committed :
        (l : Local S LogValue) → p.committed (market_finally p lib c l).1.env ≡ p.committed l.env
    unfolding market_finally
    market_finally-committed l = ground (arith, lawful.release_law l.env)

    -- If the calls of the job's context only read, then the work on a market changes nothing in the tables,
    -- or sets its row's status to false, or performs the creation of the row, if it is needed, and the update
    -- of its values together.
    pub crawl_market_atomic :
        (market : String) (l : Local S LogValue)
        → Moved p lawful IsVisit
            (p.committed l.env)
            (p.committed (crawl_market p lib c market l).1.env)
    unfolding crawl_market
    crawl_market_atomic market l =
        try-Moved p lawful IsVisit (λ x. x.env) (market_try p lib c market) (market_catch p lib c)
          (market_finally p lib c) (record l { runner = false }) market_catch-committed
          market_finally-committed (market_try-Moved market (record l { runner = false }))
