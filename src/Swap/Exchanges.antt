-- ===== src/Swap/Exchanges.antt =====
-- The exchanges of a network, behind `onApplicationBootstrap`.
use blockchain_task_server.Common.{
  ℕ, String, Bool, none, List, [], ◌∷◌, ◌++◌, ◌≡◌, sym, ap, ◌∙◌, ◌==◌, append_nil, append_assoc,
  Bool-cases, inl, inr, if◌then◌else◌, arith,
}
use blockchain_task_server.Swap.Protocols.{
  Service, ProtocolService, ProtocolMap, set_list, list_or_nil, is_exchange, add_protocol,
  add_protocols,
}

module _ (is_address is_bytes32 : String → Bool) (get_service : ℕ → Service) where
  abbrev listed : ℕ → ℕ → List ProtocolService
  listed chain_id protocol =
      if is_exchange is_address is_bytes32 get_service (get_service protocol)
      then (if (get_service protocol).chain_id == chain_id
          then (record { protocol = protocol; service = get_service protocol }) ∷ []
          else [])
      else []

  -- The protocols whose service is on the network, and has an address and a hash, in their order.
  pub exchanges_of : ℕ → List ℕ → List ProtocolService
  exchanges_of chain_id [] = []
  exchanges_of chain_id (protocol ∷ protocols) =
      listed chain_id protocol ++ exchanges_of chain_id protocols

  set-list :
      (m : ProtocolMap) (x : ProtocolService) (key chain_id : ℕ)
      → list_or_nil (set_list key (list_or_nil (m key) ++ (x ∷ [])) m chain_id)
        ≡ list_or_nil (m chain_id) ++ (if key == chain_id then x ∷ [] else [])
  set-list m x key chain_id = elim (Bool-cases (key == chain_id)) [
    | inl same ↦ rw same (ap (λ k. list_or_nil (m k) ++ (x ∷ [])) (ground arith))
    | inr other ↦ rw other (sym (append_nil (list_or_nil (m chain_id))))
  ]

  add_protocol-list :
      (m : ProtocolMap) (protocol chain_id : ℕ)
      → list_or_nil (add_protocol is_address is_bytes32 get_service m protocol chain_id)
        ≡ list_or_nil (m chain_id) ++ listed chain_id protocol
  unfolding add_protocol
  add_protocol-list m protocol chain_id =
      elim (Bool-cases (is_exchange is_address is_bytes32 get_service (get_service protocol))) [
        | inl valid ↦ rw valid (set-list m _ (get_service protocol).chain_id chain_id)
        | inr invalid ↦ rw invalid (sym (append_nil (list_or_nil (m chain_id))))
      ]

  add_protocols-list :
      (protocols : List ℕ) (m : ProtocolMap) (chain_id : ℕ)
      → list_or_nil (add_protocols is_address is_bytes32 get_service m protocols chain_id)
        ≡ list_or_nil (m chain_id) ++ exchanges_of chain_id protocols
  unfolding add_protocols exchanges_of
  add_protocols-list [] m chain_id = sym (append_nil (list_or_nil (m chain_id)))
  add_protocols-list (protocol ∷ protocols) m chain_id =
      add_protocols-list protocols (add_protocol is_address is_bytes32 get_service m protocol)
        chain_id
      ∙ (ap (λ xs. xs ++ exchanges_of chain_id protocols) (add_protocol-list m protocol chain_id)
          ∙ append_assoc (list_or_nil (m chain_id)) (listed chain_id protocol)
              (exchanges_of chain_id protocols))

  -- The exchanges that a network has behind the boot are the protocols whose service is on the network and
  -- has an address and a hash, each of them, in their order.
  pub add_protocols_lem :
      (protocols : List ℕ) (chain_id : ℕ)
      → list_or_nil (add_protocols is_address is_bytes32 get_service (λ c. none) protocols chain_id)
        ≡ exchanges_of chain_id protocols
  add_protocols_lem protocols = add_protocols-list protocols (λ c. none)
