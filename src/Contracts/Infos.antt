-- ===== src/Contracts/Infos.antt =====
-- A batch call of a function of one contract for each of some numbers, as `getFarmInfos` and
-- `getAMMFactoryInfos` of the services in src/defi make it; src/defi/bi-swap/bi-swap.bsc.service.ts is one.
use blockchain_task_server.Common.{
  ℕ, ◌<◌, Option, none, some, String, List, ◌≡◌, refl, ap, ◌∙◌, map, get_elem?, arith,
}
use blockchain_task_server.Effects.{
  Result, ok, err, Action, and_then, from_result, ◌>>=◌, map_result, then_result,
}
use blockchain_task_server.Arrays.{fill_sequence_number}
use blockchain_task_server.Arrays.Sequences.{get_elem?-fill_sequence_number}
use blockchain_task_server.Contracts.{Call, Reply, Answers, decode_or}
use blockchain_task_server.Contracts.Results.{map_some, get_elem?-map, get_elem?-map_result}

-- The decoded data of a valid reply, or null.
unfoldable pub decode_or_null : {A : Type 0} → (String → Result A) → Reply → Result (Option A)
unfolding decode_or
decode_or_null decode = decode_or (λ text. then_result (decode text) (λ a. ok (some a))) none

module _ {S A : Type 0} (aggregate : List Call → Action S (List Reply)) (call : ℕ → Call)
    (decode : String → Result A) where
  unfoldable pub batch_infos : List ℕ → Action S (List (Option A))
  unfolding decode_or_null map_result
  batch_infos pids = do
    replies ← aggregate (map call pids)
    from_result (map_result (decode_or_null decode) replies)

  module _ (answer : S → Call → Reply) (answers : Answers aggregate answer) where
    after_infos :
        (n pid : ℕ) (s t : S) (infos : List (Option A)) (x : Result (List Reply) × S)
        → pid < n
        → ((replies : List Reply)
            → x.0 ≡ ok replies
            → replies ≡ map (answer s) (map call (fill_sequence_number n 0)))
        → and_then x.0 (λ replies. from_result (map_result (decode_or_null decode) replies)) x.1
          ≡ (ok infos, t)
        → (info : Option A) × (get_elem? infos pid ≡ some info)
          × (decode_or_null decode (answer s (call pid)) ≡ ok info)
    after_infos n pid s t infos (err z, u) lt h e = cc
    after_infos n pid s t infos (ok replies, u) lt h e =
        let here : get_elem? (fill_sequence_number n 0) pid ≡ some pid =
          ground (arith, get_elem?-fill_sequence_number n 0 pid) in
        get_elem?-map_result (decode_or_null decode) replies infos pid (answer s (call pid))
          (ap (λ x. x.0) e)
          (ap (λ l. get_elem? l pid) (h replies refl)
            ∙ (get_elem?-map (answer s) _ pid
                ∙ (ap (map_some (answer s)) (get_elem?-map call _ pid)
                    ∙ ap (λ o. map_some (answer s) (map_some call o)) here)))

    -- If the batch call for the numbers below a length returns, then at the index of each of these numbers
    -- stands the decoded answer to the call for this number, which is null where the call failed or
    -- returned nothing.
    pub batch_infos_lem :
        (n pid : ℕ) (s t : S) (infos : List (Option A))
        → pid < n
        → batch_infos (fill_sequence_number n 0) s ≡ (ok infos, t)
        → (info : Option A) × (get_elem? infos pid ≡ some info)
          × (decode_or_null decode (answer s (call pid)) ≡ ok info)
    unfolding batch_infos
    batch_infos_lem n pid s t infos lt e =
        let calls = map call (fill_sequence_number n 0) in
        after_infos n pid s t infos (aggregate calls s) lt (answers calls s) e
