-- ===== src/Tests.antt =====
-- Runs of the models at concrete inputs, and the theorems applied at inputs that meet their
-- hypotheses.
mod Base58
mod Match
mod Search
mod Rng
mod Eth
mod Sol
mod Leave
mod SolRound
mod EthRound
mod Secp
mod Setup
mod Host
mod Earlier
mod Keccak
mod Production
