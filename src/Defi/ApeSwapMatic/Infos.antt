-- ===== src/Defi/ApeSwapMatic/Infos.antt =====
-- The infos of the pids, against the answers to the calls for each pid.
use blockchain_task_server.Common.{ℕ, Option, List, ◌≡◌, refl, ap, map, arith}
use blockchain_task_server.Effects.{Result, ok, map_result}
use blockchain_task_server.Lodash.{Lodash, IsDocumented}
use blockchain_task_server.Arrays.{flat}
use blockchain_task_server.BigNumber.{BigNumberLib}
use blockchain_task_server.Contracts.{Call, Reply, Answers}
use blockchain_task_server.Contracts.Chunks.{chunks_of_items}
use blockchain_task_server.Contracts.Results.{map_result-map}
use blockchain_task_server.RewarderJob.{RewarderInfo}
use blockchain_task_server.Defi.ApeSwapMatic.{ApeMaticContext, info_calls, info_of, get_farm_infos}

module _ {S B : Type 0} (lib : BigNumberLib B) (lodash : Lodash) (documented : IsDocumented lodash)
    (c : ApeMaticContext S) (answer : S → Call → Reply) (answers : Answers c.aggregate answer) where
  -- What the answers to the three calls for a pid say, for one pid after the other.
  pub pid_by_pid : S → List ℕ → Result (List (Option RewarderInfo))
  pid_by_pid s =
      map_result (λ pid. info_of lib lodash c (map (answer s) (info_calls lib lodash c pid)))

  -- If the batch call returns, then the infos are what the answers to the three calls for each pid say of
  -- this pid, for one pid after the other: no reply is read for another pid.
  pub get_farm_infos_lem :
      (pids : List ℕ) (s t : S) (replies : List Reply)
      → c.aggregate (flat (map (info_calls lib lodash c) pids)) s ≡ (ok replies, t)
      → get_farm_infos lib lodash c pids s ≡ (pid_by_pid s pids, t)
  unfolding get_farm_infos pid_by_pid
  get_farm_infos_lem pids s t replies e =
      rw
        (
          e,
          answers (flat (map (info_calls lib lodash c) pids)) s replies (ap (λ x. x.0) e),
          chunks_of_items lodash documented (info_calls lib lodash c) 3 (omega arith) (λ pid. refl)
              (answer s) pids,
          map_result-map (info_of lib lodash c)
              (λ pid. map (answer s) (info_calls lib lodash c pid)) pids,
        )
        refl
