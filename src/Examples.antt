-- ===== src/Examples.antt =====
-- The theorems at concrete inputs, and runs of the definitions, for include/viper.
mod Words
mod Segments
mod Clients
mod Recovery
mod Pools
mod Reclaims
mod Reads
mod Fulls
mod Helds
mod Strings
mod Views
mod Deadlocks
mod Splits
