-- ===== src/Random.antt =====
-- src/configdoc/config_random.go, src/configdoc/config_random_mode.go: choices by weight. The source of random
-- numbers is a parameter, with what the documentation of `rand.Int32N` says of it. A `sync.Pool` only spares
-- allocations: what it hands out is overwritten by a copy of the weights.
pub mod Weights
pub mod Pick
pub mod Draw
pub mod Select
pub mod Exhaust
pub mod Filter
pub mod Members
pub mod Passes
mod RandomTests
