-- ===== src/Lib.antt =====
-- Viper, a key-value store for persistent memory, with an inlined, vectorised variant of the CCEH
-- hash index (include/viper/viper.hpp, include/viper/cceh.hpp).
--
-- The store keeps records in blocks of six pages. A page has a byte that is its lock, its version and
-- its owner bit, a bit set of free slots, and the records. The index maps a key to a word that names
-- block, page and slot. A client owns a block, puts records into the free slots of its page, and
-- tells the index; an older record of the key is then freed.
--
-- - Prelude and its children: names of the library, Boolean tests, lists, arithmetic.
-- - Offset: KeyValueOffset; Offset/Fields has its laws.
-- - Page/Lock: init, lock and unlock of ViperPage. What other threads do between two attempts is a
--   function from the round to the byte that the compare-and-swap meets. Page/Lock/Read has the reads
--   without a lock, as a step relation. Page/Slots is get_num_slots_per_page with its 16-bit page
--   size: seven rounds of the first loop are enough, since its second test fails after six.
-- - Index/Slot: Pair, the key types. Index/Segment: Segment::Insert, Insert4split, Split;
--   Index/Segment/Sema: the accesses of the word `sema` under any interleaving, as a step relation.
--   Index/Probe: the lookup of CCEH::Get over four cache lines. Index/Directory: CCEH::Insert with
--   splits and doubling, Get, Remove, Capacity. The turns of CCEH::Insert are fuel: a split deepens a
--   segment, and a depth is below 64. A depth is at least 1 in a directory in order, since the source's shift
--   by 64 minus the depth is undefined at 0. The theorems on lookups are for keys of eight bytes.
-- - Store/State: Viper, Client, pages and blocks, as records; a vector of blocks is a function below
--   its size. Store/Access: how clients get blocks and pages, and the counters. Store/Free:
--   free_occupied_slot and remove; Store/Deadlock: the calls of it that wait for one another's pages,
--   as a step relation. Store/Put: put. Store/Get: the reads. Store/Run: the results, an
--   exception or the reason why a call does not return.
-- - Store/Recovery: recover_database, its threads one after another. Store/Pool: the pools of memory
--   and what allocate_v_page_blocks adds to them, with the answers of the operating system as a
--   record of functions; the constructor's blocks are in Store/Pool/Blocks. Store/Reclaim: compact
--   and reclaim.
-- - VarSize: Viper<std::string, std::string>. VarSize/Entry: the word before a record and the bytes.
--   VarSize/Page: the pages, whose lock bytes are in a store of Store/State. VarSize/Put: put,
--   free_occupied_slot and remove. VarSize/Read: the reads. VarSize/Reclaim: compact, whose rounds
--   are fuel, and reclaim.
-- - Examples: the theorems at concrete inputs.
--
-- A call of a client is one function from the state to a result: other clients run between calls,
-- except where a step relation or a parameter says otherwise. The tries of put are the pages that
-- it meets; the page after a full one is empty, so two are enough. Numbers are natural numbers, with
-- the width of the source written out where it wraps.
--
-- Hashes of the standard library are a parameter of KeyType; thresholds that are floating-point
-- products are functions of the configuration. Not modelled: flushing to persistent memory, the
-- concurrent queue (free_blocks is a list), the benchmarks.
pub mod Prelude
pub mod Offset
pub mod Page
pub mod Index
pub mod Store
pub mod VarSize
pub mod Examples
