-- ===== src/Page.antt =====
-- ViperPage (include/viper/viper.hpp): the version lock of a page, the number of its slots, and the
-- protocol of its readers and writers. The lock is one byte: bit 0 locked, bits 0 to 5 the version,
-- bit 6 used, bit 7 owned by a client.
pub mod Lock
pub mod Slots
