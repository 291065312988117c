-- ===== src/Store.antt =====
-- Viper for fixed-size records (include/viper/viper.hpp): its state, and the operations of a client.
pub mod Run
pub mod State
pub mod Access
pub mod Free
pub mod Deadlock
pub mod Put
pub mod Get
pub mod Recovery
pub mod Pool
pub mod Reclaim
