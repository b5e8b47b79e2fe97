-- ===== src/Production.antt =====
-- kernels/eth_vanity_production.cu: an Ethereum search that scores the addresses of a grid of points.
-- The 256-bit operations of kernels/eth_math.h, a copy of another project, are parameters.
pub mod Score
pub mod FullScore
pub mod Hex
pub mod Address
pub mod Grid
pub mod Inverses
pub mod Order
pub mod Starts
pub mod Totals
pub mod Memory
pub mod Cleanup
pub mod Launch
