-- ===== src/Contracts.antt =====
-- The batch calls of smart contracts: libs/helper/src/encodeDecode.ts, and what the services do with the
-- replies of `getBatchStaticAggregator` in libs/helper/src/batch-contract.ts. Encoding and decoding are
-- ethers', and so are arguments of the services.
pub mod Results
pub mod Chunks
pub mod Batch
pub mod Infos
use blockchain_task_server.Common.{String, Bool, not, ◌&&◌, List, map, ◌≡◌, str_eq, if◌then◌else◌}
use blockchain_task_server.Effects.{Result, ok, Action}

-- The address of a contract, and the encoded call.
abbrev pub Call : Type 0
Call = String × String

pub record Reply : Type 0 where
  pub success : Bool
  pub return_data : String

-- libs/helper/src/type.ts
unfoldable pub is_null_bytes : String → Bool
is_null_bytes value = str_eq value "0x"

unfoldable pub valid_result : Reply → Bool
unfolding is_null_bytes
valid_result r = r.success && not (is_null_bytes r.return_data)

-- The decoded data of a valid reply, or a default: the conditional of the services.
unfoldable pub decode_or : {A : Type 0} → (String → Result A) → A → Reply → Result A
unfolding valid_result
decode_or decode default r = if valid_result r then decode r.return_data else ok default

-- The documented behaviour of `staticAggregate`: one reply for each call, in order.
abbrev pub Answers :
    {S : Type 0} → (List Call → Action S (List Reply)) → (S → Call → Reply) → Type 0
Answers {S} aggregate answer =
    (calls : List Call) (s : S) (replies : List Reply)
    → (aggregate calls s).0 ≡ ok replies
    → replies ≡ map (answer s) calls
