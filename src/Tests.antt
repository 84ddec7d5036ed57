-- ===== src/Tests.antt =====
-- Tests of the model, and each theorem at an input that meets its hypotheses.
mod Samples
mod Jobs
mod Templates
mod Pairs
mod Farms
mod Swaps
mod Interactions
mod Defis
mod Lendings
mod Venus
mod Prices
mod Pages
mod Wallets
mod Halvings
mod Services
mod Uncommitted
mod Rewarders
mod Strategies
