-- ===== src/Swap/Reserves.antt =====
-- The pairs of an exchange, against the replies at their addresses.
use blockchain_task_server.Common.{
  ℕ, suc, ◌+◌, Option, none, some, List, [], ◌∷◌, Bool, true, false, ◌≡◌, ◌≢◌, refl, sym, ap, ◌∙◌,
  map, get_elem?, inl, inr, if◌then◌else◌, arith,
}
use blockchain_task_server.Effects.{Result, ok, err, map_result, collect, then_result}
use blockchain_task_server.Lodash.{Lodash}
use blockchain_task_server.Contracts.{Reply, valid_result, decode_or}
use blockchain_task_server.Contracts.Results.{cons_result-ok, push_result-ok}
use blockchain_task_server.Swap.Protocols.{
  Reserve, SwapContext, reserve_of, reserves_from, pair_of_reserve,
}

module _ {S A P : Type 0} (lodash : Lodash) (c : SwapContext S A P) where
  -- The pair of two tokens from the reply at its address, if that is valid.
  unfoldable pub pair_from : A × A → Reply → Result (Option P)
  pair_from (a, b) =
      decode_or
        (λ text.
          then_result (c.decode_get_reserves text)
            λ (r0, r1). then_result (c.make_pair a r0 b r1) λ pair. ok (some pair))
        none

  -- The parts of the two, on whether the reply is valid and on its decoded data.
  abbrev reserve_when : ℕ → Bool → Result (ℕ × ℕ) → Result (Option Reserve)
  reserve_when k v d =
      if v
      then then_result d
          (λ (r0, r1). ok (some (record { reserves0 = r0; reserves1 = r1; index = k })))
      else ok none

  abbrev pair_when : A × A → Bool → Result (ℕ × ℕ) → Result (Option P)
  pair_when (a, b) v d =
      if v
      then then_result d (λ (r0, r1). then_result (c.make_pair a r0 b r1) (λ pair. ok (some pair)))
      else ok none

  when_none :
      (k : ℕ) (t : A × A) (v : Bool) (d : Result (ℕ × ℕ))
      → reserve_when k v d ≡ ok none
      → pair_when t v d ≡ ok none
  when_none k (a, b) false d e = refl
  when_none k (a, b) true (ok (r0, r1)) e = cc
  when_none k (a, b) true (err z) e = cc

  when_index :
      (k : ℕ) (v : Bool) (d : Result (ℕ × ℕ)) (r : Reserve)
      → reserve_when k v d ≡ ok (some r)
      → r.index ≡ k
  when_index k false d r e = cc
  when_index k true (ok (r0, r1)) r e =
      let made : Reserve = record { reserves0 = r0; reserves1 = r1; index = k } in
      let q : made ≡ r = cc in sym (ap (λ x. x.index) q)
  when_index k true (err z) r e = cc

  when_some :
      (k : ℕ) (t : A × A) (v : Bool) (d : Result (ℕ × ℕ)) (r : Reserve) (p : P)
      → reserve_when k v d ≡ ok (some r)
      → c.make_pair t.0 r.reserves0 t.1 r.reserves1 ≡ ok p
      → pair_when t v d ≡ ok (some p)
  when_some k (a, b) false d r p e m = cc
  when_some k (a, b) true (ok (r0, r1)) r p e m =
      let made : Reserve = record { reserves0 = r0; reserves1 = r1; index = k } in
      let q : made ≡ r = cc in
      ap (λ x. then_result x (λ pair. ok (some pair)))
        (ap (λ x. c.make_pair a x.reserves0 b x.reserves1) q ∙ m)
  when_some k (a, b) true (err z) r p e m = cc

  -- The pair at an index that has its tokens.
  built :
      (tokens : List (A × A)) (t : A × A) (r : Reserve) (p : P)
      → get_elem? tokens r.index ≡ some t
      → pair_of_reserve lodash c tokens r ≡ ok p
      → c.make_pair t.0 r.reserves0 t.1 r.reserves1 ≡ ok p
  unfolding pair_of_reserve
  built tokens t r p at e = sym (rw (pair_of_reserve, at) refl) ∙ e

  only_some : {X : Type 0} (x : Result X) → then_result x (λ y. ok (some y)) ≢ ok none
  only_some (ok y) e = cc
  only_some (err z) e = cc

  of_some :
      {X : Type 0} (x : Result X) (y : X)
      → then_result x (λ y. ok (some y)) ≡ ok (some y)
      → x ≡ ok y
  of_some (ok y') y e = cc
  of_some (err z) y e = cc

  none_when :
      (k : ℕ) (t : A × A) (v : Bool) (d : Result (ℕ × ℕ))
      → pair_when t v d ≡ ok none
      → reserve_when k v d ≡ ok none
  none_when k (a, b) false d e = refl
  none_when k (a, b) true (ok (r0, r1)) e = absurd (only_some (c.make_pair a r0 b r1) e)
  none_when k (a, b) true (err z) e = cc

  some_when :
      (k : ℕ) (t : A × A) (v : Bool) (d : Result (ℕ × ℕ)) (p : P)
      → pair_when t v d ≡ ok (some p)
      → (r : Reserve) × (reserve_when k v d ≡ ok (some r))
        × (r.index ≡ k)
        × (c.make_pair t.0 r.reserves0 t.1 r.reserves1 ≡ ok p)
  some_when k (a, b) false d p e = cc
  some_when k (a, b) true (ok (r0, r1)) p e = (
    record { reserves0 = r0; reserves1 = r1; index = k },
    refl,
    refl,
    of_some (c.make_pair a r0 b r1) p e,
  )
  some_when k (a, b) true (err z) p e = cc

  building :
      (tokens : List (A × A)) (t : A × A) (r : Reserve) (p : P)
      → get_elem? tokens r.index ≡ some t
      → c.make_pair t.0 r.reserves0 t.1 r.reserves1 ≡ ok p
      → pair_of_reserve lodash c tokens r ≡ ok p
  unfolding pair_of_reserve
  building tokens t r p at e = rw (pair_of_reserve, at) e

  module _ (reply : A × A → Reply) (tokens : List (A × A)) where
    pub aligned_back :
        (ts : List (A × A)) (k : ℕ) (ps : List P)
        → ((i : ℕ) → get_elem? tokens (k + i) ≡ get_elem? ts i)
        → collect (λ t. pair_from t (reply t)) ts ≡ ok ps
        → (rs : List Reserve) × (reserves_from lodash c k (map reply ts) ≡ ok rs)
          × (map_result (pair_of_reserve lodash c tokens) rs ≡ ok ps)
    unfolding reserves_from map_result collect reserve_of pair_from decode_or
    aligned_back [] k ps h e = ([], refl, e)
    aligned_back (t ∷ ts) k ps h e =
        let v = valid_result (reply t) in
        let d = c.decode_get_reserves (reply t).return_data in
        let later : (i : ℕ) → get_elem? tokens (suc k + i) ≡ get_elem? ts i =
          λ i. ap (get_elem? tokens) (omega arith) ∙ h (suc i) in
        elim (push_result-ok (pair_when t v d) (collect (λ u. pair_from u (reply u)) ts) ps e) [
          | inl (nothing, rest) ↦
              let (rs, a, b) = aligned_back ts (suc k) ps later rest in
              (rs, rw (none_when k t v d nothing) a, b)
          | inr (p, ps', here, rest, whole) ↦
              let (r, found, at, made) = some_when k t v d p here in
              let (rs, a, b) = aligned_back ts (suc k) ps' later rest in
              let place = ap (get_elem? tokens) (at ∙ omega arith) ∙ h 0 in
              (
                r ∷ rs,
                rw (found, a) refl,
                rw (building tokens t r p place made, b) (ap ok (sym whole)),
              )
        ]

    pub aligned :
        (ts : List (A × A)) (k : ℕ) (rs : List Reserve) (ps : List P)
        → ((i : ℕ) → get_elem? tokens (k + i) ≡ get_elem? ts i)
        → reserves_from lodash c k (map reply ts) ≡ ok rs
        → map_result (pair_of_reserve lodash c tokens) rs ≡ ok ps
        → collect (λ t. pair_from t (reply t)) ts ≡ ok ps
    unfolding reserves_from map_result collect reserve_of pair_from decode_or
    aligned [] k rs ps h e f =
        let q : [] ≡ rs = cc in ap (map_result (pair_of_reserve lodash c tokens)) q ∙ f
    aligned (t ∷ ts) k rs ps h e f =
        let v = valid_result (reply t) in
        let d = c.decode_get_reserves (reply t).return_data in
        let later : (i : ℕ) → get_elem? tokens (suc k + i) ≡ get_elem? ts i =
          λ i. ap (get_elem? tokens) (omega arith) ∙ h (suc i) in
        elim (push_result-ok (reserve_when k v d) (reserves_from lodash c (suc k) (map reply ts)) rs
          e) [
            | inl (nothing, rest) ↦
                rw (when_none k t v d nothing) (aligned ts (suc k) rs ps later rest f)
            | inr (r, rs', here, rest, whole) ↦
                let (p, ps', pair, pairs, all) =
                  cons_result-ok (pair_of_reserve lodash c tokens r)
                    (map_result (pair_of_reserve lodash c tokens) rs') ps
                    (ap (map_result (pair_of_reserve lodash c tokens)) (sym whole) ∙ f) in
                let place = ap (get_elem? tokens) (when_index k v d r here ∙ omega arith) ∙ h 0 in
                rw
                  (
                    when_some k t v d r p here (built tokens t r p place pair),
                    aligned ts (suc k) rs' ps' later rest pairs,
                  )
                  (ap ok (sym all))
          ]
