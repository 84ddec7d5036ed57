-- ===== src/Template/Pair/Addresses.antt =====
-- The steps of pair.template.ts that sort addresses: `grouping`, `removeRegisteredTokens`,
-- `removeInvalidTokens` and `checkMultiTokenInSinglePosition`. The records that they return are tuples of
-- the fields in order.
use blockchain_task_server.Common.{
  String, Bool, false, ◌&&◌, List, [], ◌∷◌, ◌++◌, map, str_eq, if◌then◌else◌,
}
use blockchain_task_server.Effects.{Action, pure, from_result, try_catch, ◌>>=◌, map_each}
use blockchain_task_server.Arrays.{unique, remove_string_values}
use blockchain_task_server.Template.Pair.Data.{Token, PairInfo, PairContext, zero_address}

abbrev pub pairs_of : List PairInfo → List String
pairs_of [] = []
pairs_of (i ∷ infos) = i.pair ∷ pairs_of infos

abbrev pub tokens_of : List PairInfo → List String
tokens_of [] = []
tokens_of (i ∷ infos) = i.token0 ∷ i.token1 ∷ tokens_of infos

-- The unique pairs, and the unique tokens.
unfoldable pub grouping : List PairInfo → List String × List String
unfolding unique
grouping infos = (unique (pairs_of infos), unique (tokens_of infos))

-- `check[index]`, which is falsy behind the end
abbrev pub head_or_false : List Bool → Bool
head_or_false [] = false
head_or_false (b ∷ bs) = b

abbrev pub tail : List Bool → List Bool
tail [] = []
tail (b ∷ bs) = bs

-- The `filter`: the valid addresses, and those that it pushes to the invalid ones.
unfoldable pub split_checked : List String → List Bool → List String × List String
split_checked [] checks = ([], [])
split_checked (a ∷ rest) checks =
    let (valid, invalid) = split_checked rest (tail checks) in
    if head_or_false checks then (a ∷ valid, invalid) else (valid, a ∷ invalid)

unfoldable pub is_zero_address : String → Bool
is_zero_address address = str_eq address zero_address

-- The callback on each info: the addresses of single tokens, and those that it pushes to the invalid.
unfoldable pub split_infos : List PairInfo → List String × List String
unfolding is_zero_address
split_infos [] = ([], [])
split_infos (i ∷ infos) =
    let (singles, others) = split_infos infos in
    if i.weird
    then (singles, i.pair ∷ others)
    else if is_zero_address i.token0 && is_zero_address i.token1
    then (i.pair ∷ singles, others)
    else (singles, i.pair ∷ others)

module _ {S : Type 0} (c : PairContext S) where
  unfoldable pub remove_registered_tokens :
      List String → List String → Action S (List String × List String)
  unfolding remove_string_values
  remove_registered_tokens multi single = do
    multi_rows ← c.find_tokens multi
    single_rows ← c.find_tokens single
    pure (
      remove_string_values c.to_lower multi (map (λ (t : Token). t.address) multi_rows),
      remove_string_values c.to_lower single (map (λ (t : Token). t.address) single_rows),
    )

  unfoldable pub remove_invalid_tokens :
      List String → List String → Action S (List String × (List String × List String))
  unfolding remove_string_values split_checked
  remove_invalid_tokens multi single = do
    addresses ←
        map_each (λ a. from_result (c.to_check_sum_address a))
          (remove_string_values c.to_lower single multi)
    checks ← c.get_batch_check_ca addresses
    pure (multi, split_checked addresses checks)

  -- The inner `try` returns the promise without awaiting it, so that its catch never runs: a rejection
  -- goes on to the caller.
  unfoldable pub check_multi_infos : List String → Action S (List PairInfo)
  check_multi_infos single =
      try_catch (c.get_batch_pair_infos single) (λ e. map_each c.get_safe_pair_infos single)

  unfoldable pub check_multi_token_in_single_position :
      List String → List String → List String → Action S (List String × (List String × List String))
  unfolding check_multi_infos split_infos
  check_multi_token_in_single_position multi single invalid = do
    infos ← check_multi_infos single
    pure (multi, ((split_infos infos).0, invalid ++ (split_infos infos).1))
