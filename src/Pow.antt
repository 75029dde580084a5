-- ===== src/Pow.antt =====
-- src/pow.rs and src/pow: the header hash, VelkarHash and the mining state.
pub mod Xoshiro
pub mod Hasher
pub mod Matrix
pub mod Rank
pub mod Generate
pub mod Header
pub mod Stages
pub mod State
