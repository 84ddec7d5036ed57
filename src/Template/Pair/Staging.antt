-- ===== src/Template/Pair/Staging.antt =====
-- What `doTask` adds to the open transaction.
use blockchain_task_server.Common.{
  ℕ, String, Option, none, some, List, [], ◌∷◌, ◌++◌, ◌≡◌, refl, sym, ◌∙◌, ap, append_nil,
  append_assoc, All, All-append, any, find, str_eq, ltb, length, Bool-cases, inl, inr,
}
use blockchain_task_server.Effects.{Result, ok, err, Action, from_result, ◌>>=◌, when, map_each}
use blockchain_task_server.Effects.Rules.{
  Keeps, IsPreorder, bind-Keeps, try_catch-Keeps, when-Keeps, map_each-Keeps, settle_each-Keeps,
}
use blockchain_task_server.Platform.{
  Platform, IsLawful, Write, update_scheduler, other, WroteIn, SameData,
}
use blockchain_task_server.Template.Pair.Data.{Token, TokenParams, PairInfo, TokenInfo, PairContext}
use blockchain_task_server.Template.Pair.Addresses.{
  grouping, remove_registered_tokens, remove_invalid_tokens, check_multi_infos,
  check_multi_token_in_single_position,
}
use blockchain_task_server.Template.Pair.Infos.{safe_infos, infos_of, get_token_infos}
use blockchain_task_server.Template.Pair.Tokens.{
  single_params, with_infos, ready_of, later_of, Draft, compose, compose_found, compose_one,
  finish_one, finish_draft, is_composed_of, create_tokens_if_not_exist, create_single_tokens,
  create_drafts, create_multi_tokens,
}
use blockchain_task_server.Template.Pair.{do_task}

-- A write of rows to another table than that of the schedulers.
abbrev pub IsOther : {W : Type 0} → Write W → Type 0
IsOther (update_scheduler where_id set) = ⊥
IsOther (other w) = Unit

module _ {S T : Type 0} (p : Platform (List TokenParams) S T) (lawful : IsLawful p) (id : String)
    (c : PairContext S) where
  -- The calls of the job's context only read.
  pub record IsReader : Type 0 where
    pub total_reads : Keeps (SameData p) c.get_amm_factory_total_length
    pub amm_infos_reads : (pids : List ℕ) → Keeps (SameData p) (c.get_amm_factory_infos pids)
    pub batch_pairs_reads : (ts : List String) → Keeps (SameData p) (c.get_batch_pair_infos ts)
    pub safe_pair_reads : (t : String) → Keeps (SameData p) (c.get_safe_pair_infos t)
    pub check_ca_reads : (ts : List String) → Keeps (SameData p) (c.get_batch_check_ca ts)
    pub batch_infos_reads :
        (ts : List String) → Keeps (SameData p) (c.get_batch_erc20_token_infos ts)
    pub safe_info_reads : (t : String) → Keeps (SameData p) (c.get_safe_erc20_token_info t)
    pub find_tokens_reads : (ts : List String) → Keeps (SameData p) (c.find_tokens ts)
    pub find_token_reads : (t : String) → Keeps (SameData p) (c.find_token_in t)

  -- Nothing is committed, and the open transaction has gained writes to other tables only.
  abbrev pub Adds : S → S → Type 0
  Adds s t =
      (p.committed t ≡ p.committed s)
      × (ws : List (Write (List TokenParams))) × All IsOther ws
      × (p.pending t ≡ p.pending s ++ ws)

  SameData-Adds : (s t : S) → SameData p s t → Adds s t
  SameData-Adds s t (h, k) = (h, [], tt, k ∙ sym (append_nil (p.pending s)))

  Adds-IsPreorder : IsPreorder Adds
  Adds-IsPreorder = record {
    same = λ s. SameData-Adds s s (refl, refl);
    chain = λ s t u (h, ws, others, k) (h', vs, others', k'). (
      h' ∙ h,
      ws ++ vs,
      All-append IsOther ws vs others others',
      k' ∙ (ap (λ xs. xs ++ vs) k ∙ append_assoc (p.pending s) ws vs),
    );
  }

  reads : {after : S → S} → ((s : S) → SameData p s (after s)) → (s : S) → Adds s (after s)
  reads {after} h s = SameData-Adds s (after s) (h s)

  wrote-Adds :
      (w : List TokenParams) (s : S) (x : Result (Unit {0}) × S)
      → WroteIn p (other w) s x
      → Adds s x.1
  wrote-Adds w s (ok _, t) (h, k, _) = (h, other w ∷ [], (tt, tt), k)
  wrote-Adds w s (err e, t) (same, _) = SameData-Adds s t same

  create-Adds : (tokens : List TokenParams) → Keeps Adds (create_tokens_if_not_exist c p tokens)
  unfolding create_tokens_if_not_exist
  create-Adds tokens s =
      wrote-Adds tokens s (p.write_in (other tokens) s) (lawful.write_in_law (other tokens) s)

  same-Adds : (s : S) → Adds s s
  same-Adds s = SameData-Adds s s (refl, refl)

  module _ (reader : IsReader) where
    abbrev then_Adds :
        {A B : Type 0} (m : Action S A) (f : A → Action S B)
        → Keeps Adds m
        → ((a : A) → Keeps Adds (f a))
        → Keeps Adds (m >>= f)
    then_Adds = bind-Keeps Adds Adds-IsPreorder

    registered-Adds :
        (multi single : List String) → Keeps Adds (remove_registered_tokens c multi single)
    unfolding remove_registered_tokens
    registered-Adds multi single =
        then_Adds (c.find_tokens multi) _ (reads (reader.find_tokens_reads multi)) λ ms.
          then_Adds (c.find_tokens single) _ (reads (reader.find_tokens_reads single))
            λ ss. same-Adds

    invalid-Adds : (multi single : List String) → Keeps Adds (remove_invalid_tokens c multi single)
    unfolding remove_invalid_tokens
    invalid-Adds multi single =
        then_Adds _ _
          (map_each-Keeps Adds Adds-IsPreorder (λ a. from_result (c.to_check_sum_address a)) _
            λ a. same-Adds)
          λ addresses.
            then_Adds (c.get_batch_check_ca addresses) _ (reads (reader.check_ca_reads addresses))
              λ checks. same-Adds

    check-Adds :
        (multi single invalid : List String)
        → Keeps Adds (check_multi_token_in_single_position c multi single invalid)
    unfolding check_multi_token_in_single_position check_multi_infos
    check-Adds multi single invalid =
        then_Adds _ _
          (try_catch-Keeps Adds Adds-IsPreorder (c.get_batch_pair_infos single) _
            (reads (reader.batch_pairs_reads single))
            λ e.
              map_each-Keeps Adds Adds-IsPreorder c.get_safe_pair_infos single
                λ a. reads (reader.safe_pair_reads a))
          λ infos. same-Adds

    infos_of-Adds : (addresses : List String) → Keeps Adds (infos_of c addresses)
    unfolding infos_of safe_infos
    infos_of-Adds addresses =
        try_catch-Keeps Adds Adds-IsPreorder (c.get_batch_erc20_token_infos addresses) _
          (reads (reader.batch_infos_reads addresses))
          λ e.
            then_Adds _ _
              (settle_each-Keeps Adds Adds-IsPreorder c.get_safe_erc20_token_info addresses
                λ a. reads (reader.safe_info_reads a))
              λ settled. same-Adds

    infos-Adds : (multi single : List String) → Keeps Adds (get_token_infos c multi single)
    unfolding get_token_infos
    infos-Adds multi single =
        then_Adds (infos_of c multi) _ (infos_of-Adds multi)
          λ ms. then_Adds (infos_of c single) _ (infos_of-Adds single) λ ss. same-Adds

    singles-Adds :
        (addresses : List String) (infos : List TokenInfo)
        → Keeps Adds (create_single_tokens c p addresses infos)
    unfolding create_single_tokens
    singles-Adds addresses infos =
        then_Adds (from_result (single_params c addresses infos)) _ same-Adds
          λ tokens. create-Adds tokens

    two_tokens-Adds :
        {B : Type 0} (a b : String) (f : Option Token → Option Token → Result B)
        → Keeps Adds (c.find_token_in a >>= λ r0. c.find_token_in b >>= λ r1. from_result (f r0 r1))
    two_tokens-Adds a b f =
        then_Adds (c.find_token_in a) _ (reads (reader.find_token_reads a))
          λ r0. then_Adds (c.find_token_in b) _ (reads (reader.find_token_reads b)) λ r1. same-Adds

    compose_found-Adds :
        (invalid : List String) (address : String) (info : TokenInfo) (found : Option PairInfo)
        → Keeps Adds (compose_found c invalid address info found)
    unfolding compose_found
    compose_found-Adds invalid address info none = same-Adds
    compose_found-Adds invalid address info (some i) =
        elim (Bool-cases (any (is_composed_of c i) invalid)) [
          | inl e ↦ rw e same-Adds
          | inr e ↦ rw e (
              two_tokens-Adds i.token0 i.token1 λ r0 r1. ok (
                compose c
                  (record { address = address; info = info; token0 = i.token0; token1 = i.token1 })
                  r0 r1))
        ]

    compose_one-Adds :
        (composed : List PairInfo) (invalid : List String) (x : String × Option TokenInfo)
        → Keeps Adds (compose_one c composed invalid x)
    unfolding compose_one
    compose_one-Adds composed invalid (address, none) = same-Adds
    compose_one-Adds composed invalid (address, some info) =
        compose_found-Adds invalid address info
          (find (λ (i : PairInfo). str_eq (c.to_lower i.pair) (c.to_lower address)) composed)

    drafts-Adds : (drafts : List Draft) → Keeps Adds (create_drafts c p drafts)
    unfolding create_drafts finish_one
    drafts-Adds drafts =
        then_Adds (map_each (finish_one c) drafts) _
          (map_each-Keeps Adds Adds-IsPreorder (finish_one c) drafts
            λ d. two_tokens-Adds d.token0 d.token1 (finish_draft c d))
          λ verdicts. create-Adds _

    multis-Adds :
        (addresses : List String) (infos : List TokenInfo) (composed : List PairInfo)
        (invalid : List String)
        → Keeps Adds (create_multi_tokens c p addresses infos composed invalid)
    unfolding create_multi_tokens
    multis-Adds addresses infos composed invalid =
        then_Adds (map_each (compose_one c composed invalid) (with_infos addresses infos)) _
          (map_each-Keeps Adds Adds-IsPreorder (compose_one c composed invalid) _
            (compose_one-Adds composed invalid))
          λ verdicts.
            then_Adds (create_tokens_if_not_exist c p (ready_of verdicts)) _ (create-Adds _) λ _.
              when-Keeps Adds Adds-IsPreorder (ltb 0 (length (later_of verdicts))) _
                (drafts-Adds (later_of verdicts))

    pub do_task-Adds : (tokens : List String) → Keeps Adds (do_task p id c tokens)
    unfolding do_task
    do_task-Adds tokens =
        then_Adds (c.get_batch_pair_infos tokens) _ (reads (reader.batch_pairs_reads tokens))
          λ composed.
            let (multi, single) = grouping composed in
            then_Adds (remove_registered_tokens c multi single) _ (registered-Adds _ _) λ fresh.
              then_Adds (remove_invalid_tokens c fresh.0 fresh.1) _ (invalid-Adds _ _) λ valid.
                then_Adds (check_multi_token_in_single_position c valid.0 valid.1.0 valid.1.1) _
                  (check-Adds _ _ _)
                  λ pures.
                    then_Adds (get_token_infos c pures.0 pures.1.0) _ (infos-Adds _ _) λ infos.
                      then_Adds
                        (when (ltb 0 (length pures.1.0))
                          (create_single_tokens c p pures.1.0 infos.1))
                        _ (when-Keeps Adds Adds-IsPreorder _ _ (singles-Adds pures.1.0 infos.1))
                        λ _.
                          when-Keeps Adds Adds-IsPreorder (ltb 0 (length pures.0)) _
                            (multis-Adds pures.0 infos.0 composed pures.1.1)
