-- ===== src/Lib.antt =====
-- Verification of the blockchain task server: cron jobs that read chains and write what they find into
-- a database, and a REST server over that database.
--
-- The parts and their files, with paths from the root of the repository.
-- SchedulerJob and SchedulerJob/ErrorHandler model one tick of a job, in
-- src/scheduler-job/scheduler-job.base.ts: `processWork` is process_work, its try, catch and finally are
-- attempt, handle and finish, `checkState` is check_state and check_row, `errorHandler` is
-- error_handler. The proofs on a tick stand in SchedulerJob/Checks, Exclusion, Settles and Verdicts.
-- SchedulerJobService models the start at boot, in src/scheduler-job/scheduler-job.service.ts.
-- Template holds what the templates of src/scheduler-job/template share, the scheduler's pid and the
-- window of a tick; Template/Nft models nft.template.ts there, Template/Pair models pair.template.ts, and
-- Template/Interaction models interaction.template.ts. Template/Atomic is about their transactions.
-- The `run` of a template is the work of a tick, an argument of process_work.
-- FarmJob and FarmJob/Yields model
-- src/scheduler-job/pancake-swap-job/pancake-swap-job.bsc.farm.service.ts, with FarmJob/Units and
-- FarmJob/Refinement on its writes. FarmJob/Loop is its loop over the pids, whose lines the other farm jobs
-- repeat: FarmJob/Isolation, Loop/Tables and Loop/Writes are about the loop with any `try` block.
-- Farm2Job models pancake-swap-job.bsc.farm2.service.ts there, with Farm2Job/Transaction on its
-- writes; RewarderJob models src/scheduler-job/ape-swap-job/ape-swap-job.matic.farm.service.ts, and
-- AutoFarmJob models src/scheduler-job/auto-farm-job/auto-farm-job.bsc.farm.service.ts, with Units and
-- Refinement of each; MdexJob models getFarmState of src/scheduler-job/mdex-job/mdex-job.bsc.farm.service.ts,
-- with MdexJob/Sums, Meanings, Halvings and Rewards on its loop.
-- LendingJob models src/scheduler-job/venus-job/venus-job.bsc.lending.service.ts, with LendingJob/Units,
-- Isolation, Unlisted and Refinement on its work.
-- PriceJob models src/scheduler-job/template/price.template.ts; PriceJob/SingleAmm, MultiAmm and
-- ChainLink model the jobs in src/scheduler-job/token-price-job that fill it in; PriceJob/Highest, Aligned,
-- Units and Refinement are about them.
-- Swap models the pairs of tokens and the choice of a trade in src/swap/swap.service.ts, with
-- Swap/Distinct and Swap/Choice on each; Swap/Protocols models the exchanges and the reserves of their
-- pairs there, with Swap/Exchanges, Swap/Reserves and Swap/Offers on them, and Swap/Search its search.
-- Pagination models src/app/pagination/pagination.pipe.ts, and ExceptionFilter models
-- src/app/filter/all-exception.filter.ts.
-- Wallet models src/wallet/wallet.service.ts, with Wallet/Held on the tokens of a wallet.
-- Exceptions models src/common/exceptions, with the table of messages in Exceptions/Codes.
-- SchedulerLogger models the records of src/app-scheduler/scheduler-logger.
-- BigNumber and Arrays model bignumber.ts and array.ts of libs/helper/src.
-- Contracts holds the calls and replies of a batch call; Contracts/Infos and Defi/FarmWallet model the two
-- kinds of batch calls that the services of src/defi make. Of these services Defi/BiSwap, AutoFarm, Mdex,
-- PancakeSwap, Bakery and ApeSwapMatic model bi-swap.bsc.service.ts, auto-farm.bsc.service.ts,
-- mdex.bsc.service.ts, pancake-swap.bsc.service.ts, bakery-swap.bsc.service.ts and ape-swap.matic.service.ts,
-- and Defi/Venus models venus.bsc.service.ts.
-- SchedulerJob/Machine is the abstract view of a job, and Template/Refinement takes two templates to it.
-- Entities models libs/repository/src/scheduler/entity.ts.
-- Common holds shared names and helpers, Effects the actions with throws, Tests the samples, tests and
-- witnesses.
--
-- The libraries. TypeORM, the registry of cron jobs and cron are the record Platform: operations over
-- an unknown state, each of which may throw. Platform.IsLawful is their documented behaviour, and
-- Platform/Memory a platform that has it. bignumber.js is the record BigNumberLib, exact on natural
-- numbers by BigNumber.IsExact. lodash is the record Lodash, which behaves by Lodash.IsDocumented. ethers,
-- the Uniswap SDK and JSON.stringify are arguments, and Contracts.Answers is what a batch call promises.
--
-- An asynchronous function is an action that changes a state and returns or throws; calls awaited
-- together run one after the other. A transaction is taken to begin on a connection without an open one,
-- and what becomes of one that is left open is not followed. Every loop is over a list or a number that
-- is known before, but for one: MdexJob.halving_loop has the phase in a year as its fuel, which is enough
-- since each round moves the phase on by one and it starts at no less than 0. Block numbers and pids are
-- natural numbers of any size; times are given to a tick.
--
-- Not modelled: the other services of src/defi and the other farm jobs, which repeat the calls and the
-- steps of those that are; queries of subgraphs; the REST resources, which pass their arguments on; the
-- configuration of NestJS, winston and MySQL; migrations, seeds, constants with contract interfaces, and
-- the Solidity contracts.
pub mod Common
pub mod Exceptions
pub mod Effects
pub mod Entities
pub mod Platform
pub mod SchedulerLogger
pub mod SchedulerJob
pub mod SchedulerJobService
pub mod BigNumber
pub mod Lodash
pub mod Arrays
pub mod Template
pub mod FarmJob
pub mod Contracts
pub mod Defi
pub mod Swap
pub mod Tests
pub mod LendingJob
pub mod MdexJob
pub mod Farm2Job
pub mod AutoFarmJob
pub mod RewarderJob
pub mod PriceJob
pub mod Pagination
pub mod Wallet
pub mod ExceptionFilter
