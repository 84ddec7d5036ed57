-- ===== src/Tests/Venus.antt =====
-- The service of Venus over replies by a table, and the lending job on it.
use blockchain_task_server.Common.{
  String, true, false, none, [], ◌∷◌, ◌≡◌, ◌≢◌, refl, map, str_eq, if◌then◌else◌,
}
use blockchain_task_server.Effects.{ok, err, pure}
use blockchain_task_server.Lodash.Lists.{lists, lists-IsDocumented}
use blockchain_task_server.Platform.Memory.{Memory, memory-IsLawful}
use blockchain_task_server.Contracts.{Call, Reply, Answers, decode_or, is_null_bytes, valid_result}
use blockchain_task_server.Template.Pair.Data.{type_error}
use blockchain_task_server.LendingJob.Markets.{LendingWrite}
use blockchain_task_server.LendingJob.{crawl_market}
use blockchain_task_server.Defi.Venus.{
  VenusContext, VenusInfo, VenusLending, get_lending_market_infos, get_lending_wallet_info,
  market_info, market_calls, number_of, listed_of,
}
use blockchain_task_server.Defi.Venus.Infos.{IsAnswered, get_lending_market_infos-IsAnswered}
use blockchain_task_server.Defi.Venus.Borrowed.{get_lending_wallet_info-throws}
use blockchain_task_server.Defi.Venus.Job.{venus_context, crawl_market-unanswered}
use blockchain_task_server.Tests.Samples.{tallies, count, memory_state}
use blockchain_task_server.Tests.Lendings.{platform, context, context-IsReader, local}

-- Every call returns its own encoding, but for `markets`, which fails, and for the borrowed amount at "n",
-- which has no data.
abbrev answer : Memory LendingWrite → Call → Reply
answer s (address, text) = record {
  success = if str_eq text "markets" then false else true;
  return_data =
      if str_eq address "n"
      then (if str_eq text "borrowBalanceStored" then "0x" else text)
      else text;
}

abbrev service : VenusContext (Memory LendingWrite) (Unit {0})
service = record {
  lending_address = "l";
  aggregate = λ calls s. (ok (map (answer s) calls), s);
  all_markets = pure ("m" ∷ "n" ∷ []);
  assets_in = λ wallet. pure ("m" ∷ []);
  encode_v_token = λ name arguments. name;
  encode_lending = λ name arguments. name;
  decode_address = λ name text. ok text;
  decode_number = λ name text. if str_eq text "0x" then err type_error else ok (count text);
  decode_markets = λ text. err type_error;
  search_lendings = λ params addresses. pure none;
}

service-Answers : Answers service.aggregate answer
service-Answers calls s replies e = cc

abbrev lending : String → VenusLending
lending address = record { address = address; decimals = 0 }

get_lending_wallet_info-throws_example :
    (get_lending_wallet_info tallies lists service
      (lending "m" ∷ lending "n" ∷ [])
      "w"
      memory_state).0
    ≢ ok []
unfolding is_null_bytes
get_lending_wallet_info-throws_example =
    get_lending_wallet_info-throws tallies lists service type_error refl lists-IsDocumented answer
      service-Answers (lending "m" ∷ []) (lending "n") [] "w" memory_state _ refl refl refl refl []

abbrev info : VenusInfo
info = record {
  underlying = "underlying";
  supply_rate_per_block = 18;
  borrow_rate_per_block = 18;
  decimals = 8;
  total_borrows = 12;
  total_reserves = 13;
  reserve_factor_mantissa = 21;
  market = none;
}

get_lending_market_infos-IsAnswered_example :
    IsAnswered tallies lists service (answer memory_state) "m" info
unfolding get_lending_market_infos market_info market_calls number_of listed_of decode_or
get_lending_market_infos-IsAnswered_example =
    get_lending_market_infos-IsAnswered tallies lists service answer "m" memory_state memory_state
      info service-Answers refl

crawl_market-unanswered_example :
    (crawl_market platform tallies
      (venus_context tallies lists service context)
      "m"
      local).1.env.tables
    ≡ memory_state.tables
unfolding valid_result
crawl_market-unanswered_example =
    crawl_market-unanswered tallies lists service context platform (memory-IsLawful LendingWrite)
      (λ calls s. (refl, refl)) (λ s. (refl, refl)) context-IsReader answer service-Answers "m"
      local refl
