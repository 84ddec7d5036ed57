-- ===== src/Template/Pair/Fallback.antt =====
-- `getTokenInfos` where the batch call throws.
use blockchain_task_server.Common.{suc, String, List, [], ◌∷◌, ◌≡◌, refl, ap, map, length}
use blockchain_task_server.Exceptions.{Thrown}
use blockchain_task_server.Effects.{Result, ok, err, map_each, settle_each}
use blockchain_task_server.Template.Pair.Data.{TokenInfo, PairContext}
use blockchain_task_server.Template.Pair.Infos.{info_of, safe_infos, infos_of}

module _ {S : Type 0} (c : PairContext S) where
  -- The infos of the addresses, each asked for alone, one after the other.
  abbrev pub infos_alone : List String → S → List TokenInfo × S
  infos_alone [] s = ([], s)
  infos_alone (a ∷ rest) s =
      let (r, t) = c.get_safe_erc20_token_info a s in
      let (infos, u) = infos_alone rest t in (info_of r ∷ infos, u)

  settled : (addresses : List String) (s : S) → List (Result TokenInfo) × S
  settled [] s = ([], s)
  settled (a ∷ rest) s =
      let (r, t) = c.get_safe_erc20_token_info a s in let (rs, u) = settled rest t in (r ∷ rs, u)

  settle_each-settled :
      (addresses : List String) (s : S)
      → settle_each c.get_safe_erc20_token_info addresses s
        ≡ (ok (settled addresses s).0, (settled addresses s).1)
  unfolding settle_each map_each settled
  settle_each-settled [] s = refl
  settle_each-settled (a ∷ rest) s =
      rw (settle_each-settled rest (c.get_safe_erc20_token_info a s).1) refl

  map-settled :
      (addresses : List String) (s : S)
      → (map info_of (settled addresses s).0 ≡ (infos_alone addresses s).0)
        × ((settled addresses s).1 ≡ (infos_alone addresses s).1)
  unfolding settled
  map-settled [] s = (refl, refl)
  map-settled (a ∷ rest) s =
      let (h, k) = map-settled rest (c.get_safe_erc20_token_info a s).1 in
      (ap (◌∷◌ (info_of (c.get_safe_erc20_token_info a s).0)) h, k)

  length-infos_alone :
      (addresses : List String) (s : S) → length (infos_alone addresses s).0 ≡ length addresses
  length-infos_alone [] s = refl
  length-infos_alone (a ∷ rest) s =
      ap suc (length-infos_alone rest (c.get_safe_erc20_token_info a s).1)

  safe_infos-infos_alone :
      (addresses : List String) (s : S)
      → safe_infos c addresses s ≡ (ok (infos_alone addresses s).0, (infos_alone addresses s).1)
  unfolding safe_infos
  safe_infos-infos_alone addresses s =
      let (h, k) = map-settled addresses s in rw (settle_each-settled addresses s, h, k) refl

  -- If the batch call throws, the infos are returned all the same, one for each address in order: what
  -- the call for this address alone returns, or the unknown info where that call throws too.
  pub infos_of_fallback :
      (addresses : List String) (s : S) (e : Thrown)
      → (c.get_batch_erc20_token_infos addresses s).0 ≡ err e
      → let (infos, after) = infos_alone addresses (c.get_batch_erc20_token_infos addresses s).1 in
        (infos_of c addresses s ≡ (ok infos, after)) × (length infos ≡ length addresses)
  unfolding infos_of
  infos_of_fallback addresses s e h = (
    rw h (safe_infos-infos_alone addresses (c.get_batch_erc20_token_infos addresses s).1),
    length-infos_alone addresses (c.get_batch_erc20_token_infos addresses s).1,
  )
