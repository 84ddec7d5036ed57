-- ===== src/Template/Pair/Tokens.antt =====
-- `createSingleTokens` and `createMultiTokens` of pair.template.ts.
use blockchain_task_server.Common.{
  String, ◌<>◌, Bool, not, ◌&&◌, ◌||◌, Option, none, some, List, [], ◌∷◌, length, any, find, ltb,
  str_eq, if◌then◌else◌,
}
use blockchain_task_server.Effects.{
  Result, ok, err, Action, pure, throw, from_result, ◌>>=◌, ◌>>◌, when, map_each,
}
use blockchain_task_server.Platform.{Platform, other}
use blockchain_task_server.Template.Pair.Data.{
  single, multi, Token, TokenParams, PairInfo, TokenInfo, PairContext, type_error, unknown_string,
}

-- `name !== UNKNOWN_STRING && symbol !== UNKNOWN_STRING`
unfoldable pub is_known : String → String → Bool
is_known name symbol = not (str_eq name unknown_string) && not (str_eq symbol unknown_string)

-- libs/helper/src/naming.ts
unfoldable pub get_pair_token_symbol : Token → Token → String
get_pair_token_symbol token0 token1 = token0.symbol <> ("-" <> token1.symbol)

-- A multi token that waits for the single tokens of its chunk.
pub record Draft : Type 0 where
  pub address : String
  pub info : TokenInfo
  pub token0 : String
  pub token1 : String

-- What the callback on a multi token does: it returns, pushes the token, or pushes a draft.
pub data Verdict : Type 0 where
  skipped : Verdict
  ready : TokenParams → Verdict
  later : Draft → Verdict

abbrev pub ready_of : List Verdict → List TokenParams
ready_of [] = []
ready_of (skipped ∷ vs) = ready_of vs
ready_of (ready t ∷ vs) = t ∷ ready_of vs
ready_of (later d ∷ vs) = ready_of vs

abbrev pub later_of : List Verdict → List Draft
later_of [] = []
later_of (skipped ∷ vs) = later_of vs
later_of (ready t ∷ vs) = later_of vs
later_of (later d ∷ vs) = d ∷ later_of vs

-- Each address with the info at its index, if there is one.
abbrev pub with_infos : List String → List TokenInfo → List (String × Option TokenInfo)
with_infos [] infos = []
with_infos (a ∷ rest) [] = (a, none) ∷ with_infos rest []
with_infos (a ∷ rest) (i ∷ infos) = (a, some i) ∷ with_infos rest infos

module _ {S : Type 0} (c : PairContext S) where
  unfoldable pub single_param : String → TokenInfo → TokenParams
  unfolding is_known
  single_param address info = record {
    network = c.network;
    type = single;
    address = address;
    name = info.name;
    symbol = info.symbol;
    decimals = c.print_number info.decimals;
    pair0 = none;
    pair1 = none;
    status = is_known info.name info.symbol;
  }

  -- The `map` with its destructuring of `singleTokenInfos[index]`.
  unfoldable pub single_params : List String → List TokenInfo → Result (List TokenParams)
  unfolding single_param
  single_params [] infos = ok []
  single_params (a ∷ rest) [] = err type_error
  single_params (a ∷ rest) (i ∷ infos) = elim (single_params rest infos) [
    | ok ts ↦ ok (single_param a i ∷ ts)
    | err e ↦ err e
  ]

  unfoldable pub multi_param : Draft → Token → Token → TokenParams
  unfolding is_known get_pair_token_symbol
  multi_param d token0 token1 = record {
    network = c.network;
    type = multi;
    address = d.address;
    name = d.info.name;
    symbol = get_pair_token_symbol token0 token1;
    decimals = c.print_number d.info.decimals;
    pair0 = some token0;
    pair1 = some token1;
    status = is_known d.info.name d.info.symbol;
  }

  -- The decision on a multi token, given its registered tokens.
  unfoldable pub compose : Draft → Option Token → Option Token → Verdict
  unfolding multi_param
  compose d (some r0) (some r1) =
      if r0.status && r1.status then ready (multi_param d r0 r1) else skipped
  compose d _ _ = later d

  -- The decision on a draft. `&&` reads the status of the second token only behind that of the first.
  unfoldable pub finish_draft : Draft → Option Token → Option Token → Result Verdict
  unfolding multi_param
  finish_draft d none r1 = err type_error
  finish_draft d (some r0) none = if r0.status then err type_error else ok skipped
  finish_draft d (some r0) (some r1) =
      ok (if r0.status && r1.status then ready (multi_param d r0 r1) else skipped)

  unfoldable pub is_composed_of : PairInfo → String → Bool
  is_composed_of i address = str_eq address i.token0 || str_eq address i.token1

  -- The callback of the first pass, behind the search for the pair's info.
  unfoldable pub compose_found :
      List String → String → TokenInfo → Option PairInfo → Action S Verdict
  unfolding compose is_composed_of
  compose_found invalid address info none = throw type_error
  compose_found invalid address info (some i) =
      if any (is_composed_of i) invalid then pure skipped else (do
        r0 ← c.find_token_in i.token0
        r1 ← c.find_token_in i.token1
        pure (
            compose
              (record { address = address; info = info; token0 = i.token0; token1 = i.token1 }) r0
              r1))

  -- The callback of the first pass, on an address with the info at its index.
  unfoldable pub compose_one :
      List PairInfo → List String → String × Option TokenInfo → Action S Verdict
  unfolding compose_found
  compose_one composed invalid (address, none) = throw type_error
  compose_one composed invalid (address, some info) =
      compose_found invalid address info
        (find (λ (i : PairInfo). str_eq (c.to_lower i.pair) (c.to_lower address)) composed)

  -- The callback of the second pass.
  unfoldable pub finish_one : Draft → Action S Verdict
  unfolding finish_draft
  finish_one d = do
    r0 ← c.find_token_in d.token0
    r1 ← c.find_token_in d.token1
    from_result (finish_draft d r0 r1)

  module _ {T : Type 0} (p : Platform (List TokenParams) S T) where
    -- `createTokensIfNotExist`, through the manager
    unfoldable pub create_tokens_if_not_exist : List TokenParams → Action S (Unit {0})
    create_tokens_if_not_exist tokens = p.write_in (other tokens)

    unfoldable pub create_single_tokens : List String → List TokenInfo → Action S (Unit {0})
    unfolding single_params create_tokens_if_not_exist
    create_single_tokens addresses infos = do
      tokens ← from_result (single_params addresses infos)
      create_tokens_if_not_exist tokens

    unfoldable pub create_drafts : List Draft → Action S (Unit {0})
    unfolding finish_one create_tokens_if_not_exist map_each
    create_drafts drafts = do
      verdicts ← map_each finish_one drafts
      create_tokens_if_not_exist (ready_of verdicts)

    unfoldable pub create_multi_tokens :
        List String → List TokenInfo → List PairInfo → List String → Action S (Unit {0})
    unfolding compose_one create_tokens_if_not_exist create_drafts map_each
    create_multi_tokens addresses infos composed invalid = do
      verdicts ← map_each (compose_one composed invalid) (with_infos addresses infos)
      create_tokens_if_not_exist (ready_of verdicts)
      when (ltb 0 (length (later_of verdicts))) (create_drafts (later_of verdicts))
