-- ===== src/Defi.antt =====
-- The services of src/defi.
pub mod FarmWallet
pub mod BiSwap
pub mod AutoFarm
pub mod Mdex
pub mod PancakeSwap
pub mod Bakery
pub mod ApeSwapMatic
pub mod Venus
