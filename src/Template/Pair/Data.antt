-- ===== src/Template/Pair/Data.antt =====
-- What pair.template.ts passes around, and what its job knows: the DeFi service of the job, the multicall
-- contract behind ethers, and the token service.
use blockchain_task_server.Common.{ℕ, String, Bool, Option, some, List}
use blockchain_task_server.Exceptions.{Thrown, error}
use blockchain_task_server.Effects.{Result, Action}

-- libs/repository/src/token/constant.ts
pub data TokenType : Type 0 where
  native single multi : TokenType

-- libs/repository/src/token/entity.ts: the columns that the template reads.
pub record Token : Type 0 where
  pub address : String
  pub symbol : String
  pub status : Bool

-- A row to be created. A single token has no pair.
pub record TokenParams : Type 0 where
  pub network : String
  pub type : TokenType
  pub address : String
  pub name : String
  pub symbol : String
  pub decimals : String
  pub pair0 : Option Token
  pub pair1 : Option Token
  pub status : Bool

-- `weird` is not set by the contract.
pub record PairInfo : Type 0 where
  pub pair : String
  pub token0 : String
  pub token1 : String
  pub weird : Bool

pub record TokenInfo : Type 0 where
  pub name : String
  pub symbol : String
  pub decimals : ℕ

pub record PairContext (S : Type 0) : Type 0 where
  pub network : String
  pub get_amm_factory_total_length : Action S ℕ
  pub get_amm_factory_infos : List ℕ → Action S (List String)
  -- Calls of the multicall contract.
  pub get_batch_pair_infos : List String → Action S (List PairInfo)
  pub get_safe_pair_infos : String → Action S PairInfo
  pub get_batch_check_ca : List String → Action S (List Bool)
  pub get_batch_erc20_token_infos : List String → Action S (List TokenInfo)
  pub get_safe_erc20_token_info : String → Action S TokenInfo
  -- The tokens of the network at one of the addresses, and the token at an address as the transaction
  -- sees it.
  pub find_tokens : List String → Action S (List Token)
  pub find_token_in : String → Action S (Option Token)
  -- `ethers.utils.getAddress`, `toLowerCase`, and `toString` of a number.
  pub to_check_sum_address : String → Result String
  pub to_lower : String → String
  pub print_number : ℕ → String

-- The `TypeError` of reading a property of `undefined`; its text is the engine's.
abbrev pub type_error : Thrown
type_error = error (some "Cannot read properties of undefined")

-- `ZERO_ADDRESS`, `UNKNOWN_STRING` and `UNKNOWN_UINT256` of libs/helper/src/constant.ts
abbrev pub zero_address : String
zero_address = "0x0000000000000000000000000000000000000000"

abbrev pub unknown_string : String
unknown_string = "UNKNOWN"

abbrev pub unknown_uint256 : ℕ
unknown_uint256 = 0
