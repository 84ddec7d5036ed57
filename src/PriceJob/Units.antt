-- ===== src/PriceJob/Units.antt =====
-- What a `run` of the price template leaves in the database.
use mathlib.Core.Path.{subst}
use blockchain_task_server.Common.{
  String, true, false, List, [], ◌∷◌, ◌++◌, ◌≡◌, refl, sym, ◌∙◌, inl, inr, map, append_nil,
  append_assoc, Bool-cases, arith,
}
use blockchain_task_server.Exceptions.{Thrown}
use blockchain_task_server.Effects.{
  Result, ok, err, Action, and_then, ◌>>◌, for_each, try_catch, try_finally,
}
use blockchain_task_server.Effects.Rules.{Keeps}
use blockchain_task_server.Lodash.{Lodash}
use blockchain_task_server.Platform.{Platform, IsLawful, Write, other, Started}
use blockchain_task_server.BigNumber.{BigNumberLib, text, is_greater_than}
use blockchain_task_server.SchedulerJob.ErrorHandler.{error_handler}
use blockchain_task_server.Template.Atomic.{Moved, Staged, commit-Moved, after_read, try-Moved}
use blockchain_task_server.Template.Atomic.Staging.{write_in-Staged}
use blockchain_task_server.PriceJob.Params.{PriceParam, zero_big}
use blockchain_task_server.PriceJob.{
  PriceContext, max_value, bounded, update_token, bulk_catch, bulk_finally, bulk_update,
}

module _ {S T B K : Type 0} (p : Platform PriceParam S T) (lib : BigNumberLib B) (lodash : Lodash)
    (c : PriceContext S K) where
  -- The value fits into its column.
  abbrev pub IsFit : String → Type 0
  IsFit value =
      (is_greater_than lib (text value) (text max_value) ≡ false) × (c.is_finite value ≡ true)

  -- What is written for a value: the value itself if it fits, and zero if it does not.
  abbrev pub IsBounded : String → String → Type 0
  IsBounded value written =
      IsFit written
      × (IsFit value → written ≡ value)
      × (¬ IsFit value → written ≡ lib.to_string (zero_big lib))

  -- An update of the same token by the bounded values.
  abbrev pub IsUpdate : PriceParam → Write PriceParam → Type 0
  IsUpdate param w =
      (written : PriceParam) × (w ≡ other written)
      × (written.id ≡ param.id)
      × IsBounded param.price_value written.price_value
      × IsBounded param.total_supply written.total_supply

  -- One update for each of the parameters, in their order.
  abbrev pub IsBulk : List PriceParam → List (Write PriceParam) → Type 0
  IsBulk [] ws = ws ≡ []
  IsBulk (x ∷ xs) ws =
      (w : Write PriceParam) × (rest : List (Write PriceParam)) × (ws ≡ w ∷ rest)
      × IsUpdate x w
      × IsBulk xs rest

  module _ (lawful : IsLawful p) (zero-IsFit : IsFit (lib.to_string (zero_big lib))) where
    bounded-IsBounded : (value : String) → IsBounded value (bounded p lib lodash c value)
    unfolding bounded
    bounded-IsBounded value =
        elim (Bool-cases (is_greater_than lib (text value) (text max_value))) [
          | inl great ↦
              rw great (zero-IsFit, λ (small, _). absurd (ground (arith, great, small)), λ _. refl)
          | inr small ↦ elim (Bool-cases (c.is_finite value)) [
            | inl finite ↦
                rw (small, finite)
                  ((small, finite), λ _. refl, λ unfit. absurd (unfit (refl, refl)))
            | inr infinite ↦
                rw (small, infinite)
                  (zero-IsFit, λ (_, finite). absurd (ground (arith, infinite, finite)), λ _. refl)
          ]
        ]

    abbrev fit_param : PriceParam → PriceParam
    fit_param param = record {
      id = param.id;
      price_value = bounded p lib lodash c param.price_value;
      total_supply = bounded p lib lodash c param.total_supply;
    }

    written_all : List PriceParam → List (Write PriceParam)
    written_all params = map (λ x. other (fit_param x)) params

    written_all-IsBulk : (params : List PriceParam) → IsBulk params (written_all params)
    unfolding written_all
    written_all-IsBulk [] = refl
    written_all-IsBulk (x ∷ xs) = (
      other (fit_param x),
      written_all xs,
      refl,
      (fit_param x, refl, refl, bounded-IsBounded x.price_value, bounded-IsBounded x.total_supply),
      written_all-IsBulk xs,
    )

    -- The updates of the rest behind those that are done.
    updates-Staged :
        (params : List PriceParam) (done all : List (Write PriceParam)) (s t : S)
        → all ≡ done ++ written_all params
        → p.committed t ≡ p.committed s
        → p.pending t ≡ done
        → Staged p lawful (λ ws. ws ≡ all) s (for_each (update_token p lib lodash c) params t)
    unfolding for_each update_token written_all
    updates-Staged [] done all s t whole same grown = (same, grown ∙ sym (whole ∙ append_nil done))
    updates-Staged (x ∷ xs) done all s t whole same grown =
        write_in-Staged p lawful (λ ws. ws ≡ all) (other (fit_param x)) done s t
          (for_each (update_token p lib lodash c) xs) (p.write_in (other (fit_param x)) t) same
          grown (lawful.write_in_law (other (fit_param x)) t)
          λ u same' grown'.
            updates-Staged xs (done ++ (other (fit_param x) ∷ [])) all s u
              (whole ∙ sym (append_assoc done (other (fit_param x) ∷ []) (written_all xs))) same'
              grown'

    written_all-Staged :
        (params : List PriceParam) (s : S) (x : Result (Unit {0}) × S)
        → Staged p lawful (λ ws. ws ≡ written_all params) s x
        → Staged p lawful (IsBulk params) s x
    written_all-Staged params s (ok _, t) (same, whole) =
        (same, subst (IsBulk params) (sym whole) (written_all-IsBulk params))
    written_all-Staged params s (err e, t) same = same

    bulk_catch-committed :
        (e : Thrown) → Keeps (λ s t. p.committed t ≡ p.committed s) (bulk_catch p lib lodash c e)
    unfolding bulk_catch error_handler
    bulk_catch-committed e s = ground (arith, lawful.rollback_law s)

    bulk_finally-committed :
        Keeps (λ s t. p.committed t ≡ p.committed s) (bulk_finally p lib lodash c)
    unfolding bulk_finally
    bulk_finally-committed s = ground (arith, lawful.release_law s)

    module _ (params : List PriceParam) where
      abbrev updates : Action S (Unit {0})
      updates = for_each (update_token p lib lodash c) params

      abbrev guarded_updates : Action S (Unit {0})
      guarded_updates =
          try_finally (try_catch (updates >> p.commit) (bulk_catch p lib lodash c))
            (bulk_finally p lib lodash c)

      after_start :
          (s : S) (x : Result (Unit {0}) × S)
          → Started p s x
          → Moved p lawful
              (IsBulk params)
              (p.committed s)
              (p.committed (and_then x.0 (λ _. guarded_updates) x.1).1)
      after_start s (ok _, t) (same, empty, _) =
          subst (λ a. Moved p lawful (IsBulk params) a (p.committed (guarded_updates t).1)) same
            (try-Moved p lawful (IsBulk params) (λ u. u) (updates >> p.commit)
              (bulk_catch p lib lodash c) (bulk_finally p lib lodash c) t bulk_catch-committed
              bulk_finally-committed
              (commit-Moved p lawful (IsBulk params) updates
                (λ u empty'.
                  written_all-Staged params u (updates u)
                    (updates-Staged params [] (written_all params) u u refl refl empty'))
                t empty))
      after_start s (err e, t) (same, _) = inl same.0

      -- If zero fits into the columns, then `bulkUpdate` changes nothing in the tables, or performs the updates
      -- of all of the given tokens together, each by its values where these are finite and do not pass the
      -- maximum, and by zero where not.
      pub bulk_update_fits :
          (s : S)
          → Moved p lawful
              (IsBulk params)
              (p.committed s)
              (p.committed (bulk_update p lib lodash c params s).1)
      unfolding bulk_update
      bulk_update_fits s =
          after_read p lawful (IsBulk params) (λ u. u) s (p.connect s)
            (λ _. p.start_transaction >> guarded_updates) (lawful.connect_law s).0.0
            λ _ t. after_start t (p.start_transaction t) (lawful.start_law t)
