-- ===== src/Examples.antt =====
-- Concrete packages, and the theorems at concrete inputs.
pub mod Stub
pub mod Targets
pub mod Mining
pub mod Pool
pub mod NodeClient
pub mod Device
pub mod CudaDevice
pub mod Rounds
pub mod Threads
pub mod Farm
pub mod Solo
pub mod PoolThread
