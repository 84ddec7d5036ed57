-- ===== src/Exceptions/Codes.antt =====
-- common/exceptions/exception.constant.ts: the string enum of messages, as its keys and values in
-- the order of declaration, one list for each block of the source, and the levels.
use mathlib.Core.List.{List, [], ◌∷◌, ◌++◌}
use Prim.Native.String.{String}

pub data ExceptionLevel : Type 0 where
  normal fatal : ExceptionLevel

abbrev pub Entry : Type 0
Entry = String × String

abbrev pub basic_codes : List Entry
basic_codes =
    ("ERR000", "Internal server error")
    ∷ ("ERR001", "API not found")
    ∷ ("ERR002", "Validation error")
    ∷ ("ERR003", "")
    ∷ ("ERR004", "")
    ∷ ("ERR005", "")
    ∷ ("ERR006", "")
    ∷ ("ERR007", "")
    ∷ ("ERR008", "")
    ∷ ("ERR009", "")
    ∷ []

abbrev pub network_codes : List Entry
network_codes =
    ("ERR100", "Not found network")
    ∷ ("ERR101", "Invalid chainId")
    ∷ ("ERR102", "")
    ∷ ("ERR103", "")
    ∷ ("ERR104", "")
    ∷ ("ERR105", "")
    ∷ ("ERR106", "")
    ∷ ("ERR107", "")
    ∷ ("ERR108", "")
    ∷ ("ERR109", "")
    ∷ []

abbrev pub protocol_codes : List Entry
protocol_codes =
    ("ERR200", "Not found protocol")
    ∷ ("ERR201", "")
    ∷ ("ERR202", "")
    ∷ ("ERR203", "")
    ∷ ("ERR204", "")
    ∷ ("ERR205", "")
    ∷ ("ERR206", "")
    ∷ ("ERR207", "")
    ∷ ("ERR208", "")
    ∷ ("ERR209", "")
    ∷ []

abbrev pub token_codes : List Entry
token_codes =
    ("ERR300", "")
    ∷ ("ERR301", "")
    ∷ ("ERR302", "")
    ∷ ("ERR303", "")
    ∷ ("ERR304", "")
    ∷ ("ERR305", "")
    ∷ ("ERR306", "")
    ∷ ("ERR307", "")
    ∷ ("ERR308", "")
    ∷ ("ERR309", "")
    ∷ []

abbrev pub nf_token_codes : List Entry
nf_token_codes =
    ("ERR400", "")
    ∷ ("ERR401", "")
    ∷ ("ERR402", "")
    ∷ ("ERR403", "")
    ∷ ("ERR404", "")
    ∷ ("ERR405", "")
    ∷ ("ERR406", "")
    ∷ ("ERR407", "")
    ∷ ("ERR408", "")
    ∷ ("ERR409", "")
    ∷ []

abbrev pub farm_codes : List Entry
farm_codes =
    ("ERR500", "")
    ∷ ("ERR501", "")
    ∷ ("ERR502", "")
    ∷ ("ERR503", "")
    ∷ ("ERR504", "")
    ∷ ("ERR505", "")
    ∷ ("ERR506", "")
    ∷ ("ERR507", "")
    ∷ ("ERR508", "")
    ∷ ("ERR509", "")
    ∷ []

abbrev pub lending_codes : List Entry
lending_codes =
    ("ERR600", "")
    ∷ ("ERR601", "")
    ∷ ("ERR602", "")
    ∷ ("ERR603", "")
    ∷ ("ERR604", "")
    ∷ ("ERR605", "")
    ∷ ("ERR606", "")
    ∷ ("ERR607", "")
    ∷ ("ERR608", "")
    ∷ ("ERR609", "")
    ∷ []

abbrev pub interaction_codes : List Entry
interaction_codes =
    ("ERR700", "Interacted address must be contract address")
    ∷ ("ERR701", "Not found interaction")
    ∷ ("ERR702", "")
    ∷ ("ERR703", "")
    ∷ ("ERR704", "")
    ∷ ("ERR705", "")
    ∷ ("ERR706", "")
    ∷ ("ERR707", "")
    ∷ ("ERR708", "")
    ∷ ("ERR709", "")
    ∷ []

abbrev pub abi_codes : List Entry
abi_codes =
    ("ERR800", "Not found abi")
    ∷ ("ERR801", "")
    ∷ ("ERR802", "")
    ∷ ("ERR803", "")
    ∷ ("ERR804", "")
    ∷ ("ERR805", "")
    ∷ ("ERR806", "")
    ∷ ("ERR807", "")
    ∷ ("ERR808", "")
    ∷ ("ERR809", "")
    ∷ []

abbrev pub swap_codes : List Entry
swap_codes =
    ("ERR900", "Not found Input token")
    ∷ ("ERR901", "Not found output token")
    ∷ ("ERR902", "Not match chain id of input token and output token")
    ∷ ("ERR903", "Comparing incomparable trades")
    ∷ ("ERR904", "")
    ∷ ("ERR905", "")
    ∷ ("ERR906", "")
    ∷ ("ERR907", "")
    ∷ ("ERR908", "")
    ∷ ("ERR909", "")
    ∷ []

abbrev pub scheduler_codes : List Entry
scheduler_codes =
    ("ERR1000", "Not found scheduler")
    ∷ ("ERR1001", "Unknown exception")
    ∷ ("ERR1002", "missing response")
    ∷ ("ERR1003", "ETIMEDOUT")
    ∷ ("ERR1004", "could not detect network")
    ∷ ("ERR1005", "Expected rpc error")
    ∷ ("ERR1006", "Validation error")
    ∷ ("ERR1007", "missing revert data in call exception")
    ∷ ("ERR1008", "Too many connections")
    ∷ ("ERR1009", "Too Many Requests")
    ∷ ("ERR1010", "processing response error")
    ∷ []

-- `ExceptionCode`
abbrev pub exception_codes : List Entry
exception_codes =
    basic_codes
    ++ (network_codes
        ++ (protocol_codes
            ++ (token_codes
                ++ (nf_token_codes
                    ++ (farm_codes
                        ++ (lending_codes
                            ++ (interaction_codes
                                ++ (abi_codes ++ (swap_codes ++ (scheduler_codes))))))))))
