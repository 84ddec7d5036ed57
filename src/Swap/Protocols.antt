-- ===== src/Swap/Protocols.antt =====
-- src/swap/swap.service.ts: the exchanges of each network, and the reserves of their pairs. The tokens and
-- pairs of the Uniswap SDK, and what is called through ethers, are arguments.
use blockchain_task_server.Common.{
  ℕ, suc, String, Bool, ◌&&◌, Option, none, some, List, [], ◌∷◌, ◌++◌, ◌==◌, map, length, get_elem?,
  if◌then◌else◌,
}
use blockchain_task_server.Effects.{
  Result, ok, err, Action, from_result, ◌>>=◌, map_result, then_result, push_result,
}
use blockchain_task_server.Lodash.{Lodash}
use blockchain_task_server.Arrays.{flat}
use blockchain_task_server.Contracts.{Call, Reply, decode_or}
use blockchain_task_server.Template.Pair.Data.{type_error}

-- The columns of a DeFi service that the swap reads.
pub record Service : Type 0 where
  pub chain_id : ℕ
  pub amm_factory_address : String
  pub amm_factory_init_code_hash : String

-- A protocol, by its id, with its service.
pub record ProtocolService : Type 0 where
  pub protocol : ℕ
  pub service : Service

-- `protocolWithService`
abbrev pub ProtocolMap : Type 0
ProtocolMap = ℕ → Option (List ProtocolService)

abbrev pub set_list : ℕ → List ProtocolService → ProtocolMap → ProtocolMap
set_list key value m other = if key == other then some value else m other

abbrev pub list_or_nil : Option (List ProtocolService) → List ProtocolService
list_or_nil none = []
list_or_nil (some xs) = xs

-- `isAddress`, `isBytes32`, and `getService` of the DeFi service.
module _ (is_address is_bytes32 : String → Bool) (get_service : ℕ → Service) where
  unfoldable pub is_exchange : Service → Bool
  is_exchange service =
      is_address service.amm_factory_address && is_bytes32 service.amm_factory_init_code_hash

  -- The callback of `onApplicationBootstrap`.
  unfoldable pub add_protocol : ProtocolMap → ℕ → ProtocolMap
  unfolding is_exchange
  add_protocol m protocol =
      let service = get_service protocol in
      if is_exchange service
      then set_list service.chain_id
          (list_or_nil (m service.chain_id)
            ++ ((record { protocol = protocol; service = service }) ∷ []))
          m
      else m

  unfoldable pub add_protocols : ProtocolMap → List ℕ → ProtocolMap
  unfolding add_protocol
  add_protocols m [] = m
  add_protocols m (protocol ∷ protocols) = add_protocols (add_protocol m protocol) protocols

-- What a protocol is with its factory.
pub record Factory : Type 0 where
  pub protocol : ℕ
  pub amm_factory_address : String
  pub amm_factory_init_code_hash : String

-- A network without exchanges is not in the map, and `map` of `undefined` throws.
unfoldable pub get_protocol_with_factory_infos : ProtocolMap → ℕ → Result (List Factory)
get_protocol_with_factory_infos m chain_id = elim (m chain_id) [
  | none ↦ err type_error
  | some xs ↦ ok (
      map
        (λ x. record {
          protocol = x.protocol;
          amm_factory_address = x.service.amm_factory_address;
          amm_factory_init_code_hash = x.service.amm_factory_init_code_hash;
        })
        xs)
]

-- The reserves of a pair, with its index in the list of pairs.
pub record Reserve : Type 0 where
  pub reserves0 : ℕ
  pub reserves1 : ℕ
  pub index : ℕ

-- `create2` is the address of a factory's contract for two tokens, `precedes` compares texts, and
-- `make_pair` builds a pair of the SDK from two amounts of tokens.
pub record SwapContext (S A P : Type 0) : Type 0 where
  pub to_lower : String → String
  pub precedes : String → String → Bool
  pub create2 : String → String → String → String → String
  pub address_of : A → String
  pub make_pair : A → ℕ → A → ℕ → Result P
  pub aggregate : ℕ → List Call → Action S (List Reply)
  pub encode_get_reserves : String
  pub decode_get_reserves : String → Result (ℕ × ℕ)

module _ {S A P : Type 0} (lodash : Lodash) (c : SwapContext S A P) where
  -- libs/helper/src/address.ts
  unfoldable pub compute_pair_address : String → String → String → String → String
  compute_pair_address factory init_hash token0 token1 =
      if c.precedes (c.to_lower token0) (c.to_lower token1)
      then c.create2 factory init_hash token0 token1
      else c.create2 factory init_hash token1 token0

  unfoldable pub pair_address : Factory → A × A → String
  unfolding compute_pair_address
  pair_address f (a, b) =
      compute_pair_address f.amm_factory_address f.amm_factory_init_code_hash (c.address_of a)
        (c.address_of b)

  abbrev pub reserve_call : String → Call
  reserve_call address = (address, c.encode_get_reserves)

  -- The reserves of a valid reply; the others are passed over.
  unfoldable pub reserve_of : ℕ → Reply → Result (Option Reserve)
  unfolding decode_or
  reserve_of index =
      decode_or
        (λ text.
          then_result (c.decode_get_reserves text)
            (λ (r0, r1). ok (some (record { reserves0 = r0; reserves1 = r1; index = index }))))
        none

  -- The inner loop, from an index on.
  unfoldable pub reserves_from : ℕ → List Reply → Result (List Reserve)
  unfolding reserve_of
  reserves_from index [] = ok []
  reserves_from index (reply ∷ replies) =
      push_result (reserve_of index reply) (reserves_from (suc index) replies)

  -- The outer callback with its destructuring, which throws where a part is `undefined`.
  unfoldable pub protocol_reserves :
      Option Factory × Option (List Reply) → Result (ℕ × List Reserve)
  unfolding reserves_from
  protocol_reserves (some f, some replies) =
      then_result (reserves_from 0 replies) λ reserves. ok (f.protocol, reserves)
  protocol_reserves _ = err type_error

  -- The pair of the tokens at the index.
  unfoldable pub pair_of_reserve : List (A × A) → Reserve → Result P
  pair_of_reserve tokens r = elim (get_elem? tokens r.index) [
    | none ↦ err type_error
    | some (a, b) ↦ c.make_pair a r.reserves0 b r.reserves1
  ]

  unfoldable pub protocol_pairs : List (A × A) → ℕ × List Reserve → Result (ℕ × List P)
  unfolding pair_of_reserve map_result
  protocol_pairs tokens (protocol, reserves) =
      then_result (map_result (pair_of_reserve tokens) reserves) λ pairs. ok (protocol, pairs)

  unfoldable pub get_protocol_pairs : ProtocolMap → ℕ → List (A × A) → Action S (List (ℕ × List P))
  unfolding get_protocol_with_factory_infos pair_address flat protocol_reserves map_result
      protocol_pairs
  get_protocol_pairs m chain_id tokens = do
    factories ← from_result (get_protocol_with_factory_infos m chain_id)
    replies ←
        c.aggregate chain_id
          (map reserve_call (flat (map (λ f. map (pair_address f) tokens) factories)))
    reserves ←
        from_result (
          map_result protocol_reserves
            (lodash.zip factories (lodash.chunk replies (length tokens))))
    from_result (map_result (protocol_pairs tokens) reserves)
