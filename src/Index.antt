-- ===== src/Index.antt =====
-- The CCEH hash index (include/viper/cceh.hpp): slots, segments, the directory and the probes.
pub mod Slot
pub mod Segment
pub mod Probe
pub mod Directory
