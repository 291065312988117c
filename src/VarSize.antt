-- ===== src/VarSize.antt =====
-- Viper<std::string, std::string>: records of variable size (include/viper/viper.hpp).
pub mod Entry
pub mod Page
pub mod Put
pub mod Read
pub mod Reclaim
