-- ===== src/Swap/Offers.antt =====
-- The batch call for the reserves, against the answers at the addresses of the pairs.
use blockchain_task_server.Common.{
  ℕ, ◌<◌, some, List, [], ◌∷◌, ◌≡◌, ◌↔◌, refl, sym, ap, ◌∙◌, map, map_append, map-map, ◌++◌, length,
  get_elem?, arith,
}
use blockchain_task_server.Effects.{
  Result, ok, err, and_then, from_result, map_result, collect, then_result,
}
use blockchain_task_server.Lodash.{Lodash, IsDocumented}
use blockchain_task_server.Arrays.{flat}
use blockchain_task_server.Contracts.{Call, Reply, Answers}
use blockchain_task_server.Contracts.Results.{cons_result-ok, then_result-ok, map_result-map}
use blockchain_task_server.Contracts.Chunks.{chunks_of_items, length-map}
use blockchain_task_server.Swap.Protocols.{
  Factory, Reserve, SwapContext, ProtocolMap, get_protocol_with_factory_infos, pair_address,
  reserve_call, reserves_from, protocol_reserves, pair_of_reserve, protocol_pairs,
  get_protocol_pairs,
}
use blockchain_task_server.Swap.Reserves.{pair_from, aligned, aligned_back}

module _ {S A P : Type 0} (lodash : Lodash) (c : SwapContext S A P) where
  -- What an exchange offers, with each pair from the reply at its own address.
  unfoldable pub offer_of : (Call → Reply) → List (A × A) → Factory → Result (ℕ × List P)
  offer_of reply tokens f =
      then_result
        (collect
          (λ t. pair_from lodash c t (reply (reserve_call lodash c (pair_address lodash c f t))))
          tokens)
        λ pairs. ok (f.protocol, pairs)

  module _ (tokens : List (A × A)) where
    abbrev calls_of : Factory → List Call
    calls_of f = map (λ t. reserve_call lodash c (pair_address lodash c f t)) tokens

    batch_of :
        (fs : List Factory)
        → map (reserve_call lodash c) (flat (map (λ f. map (pair_address lodash c f) tokens) fs))
          ≡ flat (map calls_of fs)
    unfolding flat
    batch_of [] = refl
    batch_of (f ∷ fs) =
        map_append (reserve_call lodash c) (map (pair_address lodash c f) tokens)
          (flat (map (λ g. map (pair_address lodash c g) tokens) fs))
        ∙ (ap
              (λ cs.
                cs
                ++ map (reserve_call lodash c)
                    (flat (map (λ g. map (pair_address lodash c g) tokens) fs)))
              (map-map (reserve_call lodash c) (pair_address lodash c f) tokens)
            ∙ ap (λ cs. calls_of f ++ cs) (batch_of fs))

    offered :
        (reply : Call → Reply) (f : Factory) (rs : List Reserve) (q : ℕ × List P)
        → reserves_from lodash c 0 (map reply (calls_of f)) ≡ ok rs
        → protocol_pairs lodash c tokens (f.protocol, rs) ≡ ok q
        → offer_of reply tokens f ≡ ok q
    unfolding protocol_pairs offer_of
    offered reply f rs q e h =
        let (ps, pairs, made) =
          then_result-ok (map_result (pair_of_reserve lodash c tokens) rs)
            (λ pairs. ok (f.protocol, pairs)) q h in
        let replies =
          map-map reply (λ t. reserve_call lodash c (pair_address lodash c f t)) tokens in
        rw
          (aligned lodash c (λ t. reply (reserve_call lodash c (pair_address lodash c f t))) tokens
            tokens 0 rs ps (λ i. ap (get_elem? tokens) (omega arith))
            (ap (reserves_from lodash c 0) (sym replies) ∙ e) pairs)
          made

    offers :
        (reply : Call → Reply) (fs : List Factory) (rss : List (ℕ × List Reserve))
        (result : List (ℕ × List P))
        → map_result (λ f. protocol_reserves lodash c (some f, some (map reply (calls_of f)))) fs
          ≡ ok rss
        → map_result (protocol_pairs lodash c tokens) rss ≡ ok result
        → map_result (offer_of reply tokens) fs ≡ ok result
    unfolding map_result protocol_reserves
    offers reply [] rss result e h =
        let q : [] ≡ rss = cc in ap (map_result (protocol_pairs lodash c tokens)) q ∙ h
    offers reply (f ∷ fs) rss result e h =
        let (b, bs, here, rest, whole) =
          cons_result-ok (protocol_reserves lodash c (some f, some (map reply (calls_of f))))
            (map_result (λ g. protocol_reserves lodash c (some g, some (map reply (calls_of g))))
              fs)
            rss e in
        let (rs, found, told) =
          then_result-ok (reserves_from lodash c 0 (map reply (calls_of f)))
            (λ rs. ok (f.protocol, rs)) b here in
        let b-is : (f.protocol, rs) ≡ b = cc in
        let (q, qs, first, others, all) =
          cons_result-ok (protocol_pairs lodash c tokens b)
            (map_result (protocol_pairs lodash c tokens) bs) result
            (ap (map_result (protocol_pairs lodash c tokens)) (sym whole) ∙ h) in
        rw
          (
            offered reply f rs q found (ap (protocol_pairs lodash c tokens) b-is ∙ first),
            offers reply fs bs qs rest others,
          )
          (ap ok (sym all))

    offers_back :
        (reply : Call → Reply) (fs : List Factory) (result : List (ℕ × List P))
        → map_result (offer_of reply tokens) fs ≡ ok result
        → (rss : List (ℕ × List Reserve)) × (map_result
              (λ f. protocol_reserves lodash c (some f, some (map reply (calls_of f))))
              fs
            ≡ ok rss)
          × (map_result (protocol_pairs lodash c tokens) rss ≡ ok result)
    unfolding map_result protocol_reserves protocol_pairs offer_of
    offers_back reply [] result e = ([], refl, e)
    offers_back reply (f ∷ fs) result e =
        let reply_at : A × A → Reply =
          λ t. reply (reserve_call lodash c (pair_address lodash c f t)) in
        let (q, qs, here, others, all) =
          cons_result-ok (offer_of reply tokens f) (map_result (offer_of reply tokens) fs) result
            e in
        let (ps, found, made) =
          then_result-ok (collect (λ t. pair_from lodash c t (reply_at t)) tokens)
            (λ pairs. ok (f.protocol, pairs)) q here in
        let (rs, a, b) =
          aligned_back lodash c reply_at tokens tokens 0 ps
            (λ i. ap (get_elem? tokens) (omega arith)) found in
        let (rss, a', b') = offers_back reply fs qs others in
        (
          (f.protocol, rs) ∷ rss,
          rw
              (
                ap (reserves_from lodash c 0) (
                      map-map reply (λ t. reserve_call lodash c (pair_address lodash c f t)) tokens)
                    ∙ a,
                a',
              )
              refl,
          rw (b, b') cc,
        )

    module _ (documented : IsDocumented lodash) where
      zip-map :
          (g : Factory → List Reply) (fs : List Factory)
          → lodash.zip fs (map g fs) ≡ map (λ f. (some f, some (g f))) fs
      zip-map g [] = documented.zip_nil
      zip-map g (f ∷ fs) =
          documented.zip_cons f fs (g f) (map g fs) ∙ ap (◌∷◌ (some f, some (g f))) (zip-map g fs)

      zipped :
          (positive : 0 < length tokens) (reply : Call → Reply) (fs : List Factory)
          → map_result
              (protocol_reserves lodash c)
              (lodash.zip fs (lodash.chunk (map reply (flat (map calls_of fs))) (length tokens)))
            ≡ map_result
                (λ f. protocol_reserves lodash c (some f, some (map reply (calls_of f))))
                fs
      zipped positive reply fs =
          ap (λ chunks. map_result (protocol_reserves lodash c) (lodash.zip fs chunks))
            (chunks_of_items lodash documented calls_of (length tokens) positive
              (λ f. length-map _ tokens) reply fs)
          ∙ (ap (map_result (protocol_reserves lodash c)) (zip-map (λ f. map reply (calls_of f)) fs)
              ∙ map_result-map (protocol_reserves lodash c)
                  (λ f. (some f, some (map reply (calls_of f)))) fs)

      module _ (answer : S → Call → Reply) (m : ProtocolMap) (chain_id : ℕ)
          (answers : Answers (c.aggregate chain_id) answer) (positive : 0 < length tokens) where
        both :
            (r : Result (List (ℕ × List Reserve))) (t : S) (result : List (ℕ × List P))
            → (and_then r
                (λ rss. from_result (map_result (protocol_pairs lodash c tokens) rss))
                t).0
              ≡ ok result
            → (rss : List (ℕ × List Reserve)) × (r ≡ ok rss)
              × (map_result (protocol_pairs lodash c tokens) rss ≡ ok result)
        both (ok rss) t result e = (rss, refl, e)
        both (err z) t result e = cc

        module _ (s t : S) (fs : List Factory) (replies : List Reply)
            (known : get_protocol_with_factory_infos m chain_id ≡ ok fs)
            (answered : c.aggregate chain_id
                (map
                  (reserve_call lodash c)
                  (flat (map (λ f. map (pair_address lodash c f) tokens) fs)))
                s
              ≡ (ok replies, t)) where
          settled :
              (get_protocol_pairs lodash c m chain_id tokens s).0
              ≡ (and_then
                  (map_result
                    (λ f. protocol_reserves lodash c (some f, some (map (answer s) (calls_of f))))
                    fs)
                  (λ rss. from_result (map_result (protocol_pairs lodash c tokens) rss))
                  t).0
          unfolding get_protocol_pairs
          settled =
              let batch =
                map (reserve_call lodash c)
                  (flat (map (λ f. map (pair_address lodash c f) tokens) fs)) in
              let got =
                answers batch s replies (ap (λ x. x.0) answered)
                ∙ ap (map (answer s)) (batch_of fs) in
              rw (known, answered)
                (ap
                  (λ r.
                    (and_then r
                      (λ rss. from_result (map_result (protocol_pairs lodash c tokens) rss)) t).0)
                  (ap
                      (λ rs.
                        map_result (protocol_reserves lodash c)
                          (lodash.zip fs (lodash.chunk rs (length tokens))))
                      got
                    ∙ zipped positive (answer s) fs))

          -- If there are pairs of tokens, the exchanges of the network are known, and the batch call returns,
          -- then `getProtocolPairs` returns a list exactly if, for one exchange after the other, it holds
          -- the pairs of tokens whose own addresses there have answered, each with the reserves of that answer.
          pub get_protocol_pairs_lem :
              (result : List (ℕ × List P))
              → ((get_protocol_pairs lodash c m chain_id tokens s).0 ≡ ok result)
                ↔ (map_result (offer_of (answer s) tokens) fs ≡ ok result)
          get_protocol_pairs_lem result = (
            λ e.
                let (rss, found, paired) = both _ t result (sym settled ∙ e) in
                offers (answer s) fs rss result found paired,
            λ e.
                let (rss, found, paired) = offers_back (answer s) fs result e in
                settled ∙ rw found paired,
          )
