-- ===== src/Pagination.antt =====
-- src/app/pagination/pagination.pipe.ts: the page and the limit of a request. `Number`, the numbers of
-- JavaScript and their comparisons through bignumber.js are arguments.
use blockchain_task_server.Common.{
  ℕ, Bool, ◌-◌, ◌*◌, ◌≤◌, Option, none, some, ◌≡◌, refl, ap, ◌∙◌, ltb, arith, Bool-cases, inl, inr,
  if◌then◌else◌,
}

pub record Numbers (V J : Type 0) : Type 0 where
  pub number : V → J
  pub of_ℕ : ℕ → J
  pub is_less_than : J → J → Bool
  pub is_greater_than : J → J → Bool
  pub minus : J → J → J
  pub times : J → J → J

-- The parts of a query that the pipe reads, as they are sent.
pub record Query (V : Type 0) : Type 0 where
  pub page : Option V
  pub limit : Option V
  pub skip_items : Option V

-- A value as it is sent, or a number.
pub data Item (V J : Type 0) : Type 0 where
  sent : V → Item V J
  computed : J → Item V J

pub record Pagination (V J : Type 0) : Type 0 where
  pub page : Option J
  pub limit : Option J
  pub skip_items : Option (Item V J)

module _ {V J : Type 0} (n : Numbers V J) where
  unfoldable pub page_of : Option V → Option J
  page_of none = none
  page_of (some v) =
      let page = n.number v in some (if n.is_less_than page (n.of_ℕ 1) then n.of_ℕ 1 else page)

  unfoldable pub limit_of : Option V → Option J
  limit_of none = none
  limit_of (some v) =
      let limit = n.number v in
      some (
        if n.is_less_than limit (n.of_ℕ 1)
        then n.of_ℕ 1
        else if n.is_greater_than limit (n.of_ℕ 1000)
        then n.of_ℕ 1000
        else limit)

  abbrev pub sent_item : Option V → Option (Item V J)
  sent_item none = none
  sent_item (some v) = some (sent v)

  -- Without a page or a limit, `skipItems` stays what `Object.assign` has copied from the query.
  unfoldable pub skip_of : Option J → Option J → Option V → Option (Item V J)
  skip_of (some page) (some limit) given = some (computed (n.times (n.minus page (n.of_ℕ 1)) limit))
  skip_of (some page) none given = sent_item given
  skip_of none limit given = sent_item given

  unfoldable pub transform : Query V → Pagination V J
  unfolding page_of limit_of skip_of
  transform query =
      let page = page_of query.page in
      let limit = limit_of query.limit in
      record { page = page; limit = limit; skip_items = skip_of page limit query.skip_items }

  -- JavaScript on the natural numbers that it holds exactly.
  pub record IsExact : Type 0 where
    pub less_law : (a b : ℕ) → n.is_less_than (n.of_ℕ a) (n.of_ℕ b) ≡ ltb a b
    pub greater_law : (a b : ℕ) → n.is_greater_than (n.of_ℕ a) (n.of_ℕ b) ≡ ltb b a
    pub minus_law : (a b : ℕ) → b ≤ a → n.minus (n.of_ℕ a) (n.of_ℕ b) ≡ n.of_ℕ (a - b)
    pub times_law : (a b : ℕ) → n.times (n.of_ℕ a) (n.of_ℕ b) ≡ n.of_ℕ (a * b)

  module _ (exact : IsExact) where
    -- The page or limit is the one that was sent, where it was within the bounds.
    page_of-exact :
        (v : V) (a : ℕ)
        → n.number v ≡ n.of_ℕ a
        → (page : ℕ) × (page_of (some v) ≡ some (n.of_ℕ page)) × (1 ≤ page) × (1 ≤ a → page ≡ a)
    unfolding page_of
    page_of-exact v a e = elim (Bool-cases (ltb a 1)) [
      | inl low ↦ (1, rw (e, exact.less_law a 1, low) refl, omega arith, λ h. ground arith)
      | inr fine ↦ (a, rw (e, exact.less_law a 1, fine) refl, ground arith, λ h. refl)
    ]

    limit_of-exact :
        (v : V) (b : ℕ)
        → n.number v ≡ n.of_ℕ b
        → (limit : ℕ) × (limit_of (some v) ≡ some (n.of_ℕ limit))
          × (1 ≤ limit)
          × (limit ≤ 1000)
          × (1 ≤ b → b ≤ 1000 → limit ≡ b)
    unfolding limit_of
    limit_of-exact v b e = elim (Bool-cases (ltb b 1)) [
      | inl low ↦
          (1, rw (e, exact.less_law b 1, low) refl, omega arith, omega arith, λ h k. ground arith)
      | inr fine ↦ elim (Bool-cases (ltb 1000 b)) [
        | inl high ↦ (
          1000,
          rw (e, exact.less_law b 1, exact.greater_law b 1000, fine, high) refl,
          omega arith,
          omega arith,
          λ h k. ground arith,
        )
        | inr both ↦ (
          b,
          rw (e, exact.less_law b 1, exact.greater_law b 1000, fine, both) refl,
          ground arith,
          ground arith,
          λ h k. refl,
        )
      ]
    ]

    skip_of-exact :
        (p q : Option J) (given : Option V) (page limit : ℕ)
        → p ≡ some (n.of_ℕ page)
        → q ≡ some (n.of_ℕ limit)
        → 1 ≤ page
        → skip_of p q given ≡ some (computed (n.of_ℕ ((page - 1) * limit)))
    unfolding skip_of
    skip_of-exact p q given page limit e f h =
        rw (e, f)
          (ap (λ j. some (computed j))
            (ap (λ j. n.times j (n.of_ℕ limit)) (exact.minus_law page 1 h)
              ∙ exact.times_law (page - 1) limit))

    abbrev the_page : Option J → Option J → Option (Item V J) → Pagination V J
    the_page p q k = record { page = p; limit = q; skip_items = k }

    as_record :
        (p q : Option J) (k : Option (Item V J)) (page limit skip : J)
        → p ≡ some page
        → q ≡ some limit
        → k ≡ some (computed skip)
        → the_page p q k ≡ the_page (some page) (some limit) (some (computed skip))
    as_record p q k page limit skip e f g = rw (e, f, g) refl

    -- If JavaScript computes exactly on natural numbers, and a page and a limit are sent that it reads as
    -- natural numbers, then the page behind the pipe is at least 1, the limit is from 1 to 1000, each is the
    -- one that was sent where that is within the bounds, and `skipItems` is the number of items on the pages
    -- before.
    pub transform_lem :
        (v w : V) (given : Option V) (a b : ℕ)
        → n.number v ≡ n.of_ℕ a
        → n.number w ≡ n.of_ℕ b
        → (page limit : ℕ) × (transform
              (record { page = some v; limit = some w; skip_items = given })
            ≡ record {
              page = some (n.of_ℕ page);
              limit = some (n.of_ℕ limit);
              skip_items = some (computed (n.of_ℕ ((page - 1) * limit)));
            })
          × (1 ≤ page)
          × (1 ≤ limit)
          × (limit ≤ 1000)
          × (1 ≤ a → page ≡ a)
          × (1 ≤ b → b ≤ 1000 → limit ≡ b)
    unfolding transform
    transform_lem v w given a b e f =
        let (page, at_page, positive, same_page) = page_of-exact v a e in
        let (limit, at_limit, some_items, few, same_limit) = limit_of-exact w b f in
        (
          page,
          limit,
          as_record _ _ _ _ _ _ at_page at_limit
              (skip_of-exact _ _ given page limit at_page at_limit positive),
          positive,
          some_items,
          few,
          same_page,
          same_limit,
        )
