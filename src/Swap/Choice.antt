-- ===== src/Swap/Choice.antt =====
-- `getBestTrade` against the trades that it chooses from.
use blockchain_task_server.Common.{
  ℕ, Bool, true, false, Option, none, some, ◌≡◌, refl, ◌⊎◌, inl, inr, arith, Bool-cases,
}
use blockchain_task_server.Effects.{Result, ok}
use blockchain_task_server.Swap.{is_trade_better, keep_better, get_best_trade}

module _ {A F : Type 0} (price : A → F) (scaled : F → F) (less_than : F → F → Bool) where
  -- The second trade is better by more than the minimal difference.
  abbrev pub beaten : A → A → Bool
  beaten a b = less_than (scaled (price a)) (price b)

  -- Prices are positive and compare as fractions do.
  pub record IsStrict : Type 0 where
    pub irreflexive : (a : A) → beaten a a ≡ false
    pub transitive : (a b c : A) → beaten a b ≡ true → beaten b c ≡ true → beaten a c ≡ true

  -- A choice that the trade, if there is one, does not beat.
  abbrev pub IsUnbeaten : Option A → Option A → Type 0
  IsUnbeaten best none = Unit
  IsUnbeaten none (some b) = ⊥
  IsUnbeaten (some a) (some b) = beaten a b ≡ false

  module _ (strict : IsStrict) where
    -- Whatever does not beat a trade does not beat a better one.
    not_beaten : (a b c : A) → beaten a b ≡ true → beaten a c ≡ false → beaten b c ≡ false
    not_beaten a b c better low = elim (Bool-cases (beaten b c)) [
      | inr fine ↦ fine
      | inl over ↦ absurd (ground (arith, low, strict.transitive a b c better over))
    ]

    abbrev keep : Option A → Option A → Option A
    keep = keep_better price scaled less_than

    keep-current : (best current : Option A) → IsUnbeaten (keep best current) current
    unfolding keep_better is_trade_better
    keep-current best none = tt
    keep-current none (some b) = strict.irreflexive b
    keep-current (some a) (some b) = elim (Bool-cases (beaten a b)) [
      | inl better ↦ rw better (strict.irreflexive b)
      | inr fine ↦ rw fine fine
    ]

    keep-before :
        (best current other : Option A)
        → IsUnbeaten best other
        → IsUnbeaten (keep best current) other
    unfolding keep_better is_trade_better
    keep-before best current none h = tt
    keep-before none none (some c) h = h
    keep-before none (some b) (some c) h = absurd h
    keep-before (some a) none (some c) h = h
    keep-before (some a) (some b) (some c) h = elim (Bool-cases (beaten a b)) [
      | inl better ↦ rw better (not_beaten a b c better h)
      | inr fine ↦ rw fine h
    ]

    keep-cases :
        (best current : Option A) → (keep best current ≡ best) ⊎ (keep best current ≡ current)
    unfolding keep_better
    keep-cases best current = ground arith

    keep-none : (current : Option A) → keep none current ≡ current
    unfolding keep_better is_trade_better
    keep-none none = refl
    keep-none (some a) = refl

    chosen :
        (first second third : Option A)
        → let best = keep (keep (keep none first) second) third in
          ((best ≡ first) ⊎ (best ≡ second) ⊎ (best ≡ third))
          × IsUnbeaten best first
          × IsUnbeaten best second
          × IsUnbeaten best third
    chosen first second third =
        let one = keep none first in
        let two = keep one second in
        (
          ground (arith, keep-cases two third, keep-cases one second, keep-none first),
          keep-before two third first (keep-before one second first (keep-current none first)),
          keep-before two third second (keep-current one second),
          keep-current two third,
        )

    -- If the prices of trades compare strictly, and the SDK returns for one, two and three hops, then
    -- `getBestTrade` returns one of these trades that none of them beats by more than the minimal
    -- difference, and returns none only if there is none of them.
    pub get_best_trade_lem :
        (best_within : ℕ → Result (Option A)) (first second third : Option A)
        → best_within 1 ≡ ok first
        → best_within 2 ≡ ok second
        → best_within 3 ≡ ok third
        → (best : Option A) × (get_best_trade price scaled less_than best_within ≡ ok best)
          × ((best ≡ first) ⊎ (best ≡ second) ⊎ (best ≡ third))
          × IsUnbeaten best first
          × IsUnbeaten best second
          × IsUnbeaten best third
    unfolding get_best_trade
    get_best_trade_lem best_within first second third e f g =
        let (one, best_first, best_second, best_third) = chosen first second third in
        (
          keep (keep (keep none first) second) third,
          rw (e, f, g) refl,
          one,
          best_first,
          best_second,
          best_third,
        )
