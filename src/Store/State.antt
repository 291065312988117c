-- ===== src/Store/State.antt =====
-- The state of Viper and of a client (include/viper/viper.hpp): pages and blocks of records of fixed
-- size, the counters that clients share, and the position of a client.
use hih.Prelude.{
  ℕ, zero, suc, ◌+◌, Bool, true, not, ◌&&◌, if◌then◌else◌, Option, none, some, List, update,
}
use hih.Offset.{KeyValueOffset}
use hih.Page.Lock.{init_version, is_bit_set, client_bit, used_bit}
use hih.Index.Directory.{Cceh}

-- ViperPage<K, V>; slots are numbered below num_slots_per_page.
pub record ViperPage (K V : Type 0) : Type 0 where
  pub version_lock : ℕ
  pub free_slots : ℕ → Bool
  pub entry : ℕ → K × V

-- ViperPageBlock
abbrev pub ViperPageBlock : Type 0 → Type 0 → Type 0
ViperPageBlock K V = ℕ → ViperPage K V

-- The parts of ViperConfig that the operations read. The thresholds are floating-point products:
-- `beyond_threshold b n` is b > resize_threshold * n, and `free_threshold n` is
-- reclaim_free_percentage * n, truncated.
pub record ViperConfig : Type 0 where
  pub beyond_threshold : ℕ → ℕ → Bool
  pub free_threshold : ℕ → ℕ
  pub reclaim_threshold : ℕ
  pub enable_reclamation : Bool

-- What the types of the records fix; `is_string` is std::is_same_v<std::string, K>.
pub record Layout : Type 0 where
  pub is_string : Bool
  pub num_slots : ℕ
  pub num_pages : ℕ

-- Viper<K, V>. The vector v_blocks_ is a function below its size.
pub record Viper (K V : Type 0) : Type 0 where
  pub config : ViperConfig
  pub layout : Layout
  pub v_blocks : ℕ → ViperPageBlock K V
  pub num_v_blocks : ℕ
  pub current_block_page : KeyValueOffset
  pub free_blocks : List ℕ
  pub num_used_blocks : ℕ
  pub map : Cceh
  pub current_size : ℕ
  pub reclaimable_ops : ℕ
  pub num_active_clients : ℕ
  pub is_resizing : Bool
  pub is_reclaiming : Bool
  -- the values that rand() gives, in order
  pub random : ℕ → ℕ

pub data PageStrategy : Type 0 where
  block_based dimm_based : PageStrategy

pub record CacheEntry (V : Type 0) : Type 0 where
  pub key_buf : List ℕ
  pub value : V
  pub occupied : Bool

-- Client. The pointers v_block_ and v_page_ are those of the block and page numbers; `has_block`
-- tells whether v_block_ is set. `size_delta` is kept as what was added and what was taken.
pub record Client (V : Type 0) : Type 0 where
  pub strategy : PageStrategy
  pub has_block : Bool
  pub v_block_number : ℕ
  pub v_page_number : ℕ
  pub end_v_block_number : ℕ
  pub num_v_pages_processed : ℕ
  pub op_count : ℕ
  pub num_reclaimable_ops : ℕ
  pub added : ℕ
  pub removed : ℕ
  pub dram_cache : ℕ → CacheEntry V

-- std::bitset::_Find_first over the slots below `n`, from slot `i` on.
unfoldable pub find_first : ℕ → ℕ → (ℕ → Bool) → Option ℕ
find_first zero i free = none
find_first (suc n) i free = let rest = find_first n (suc i) free in if free i then some i else rest

unfoldable pub count_free : ℕ → (ℕ → Bool) → ℕ
count_free zero free = 0
count_free (suc n) free = (if free n then 1 else 0) + count_free n free

module _ {K V : Type 0} where
  -- ViperPage::init
  unfoldable pub init_page : ViperPage K V → ViperPage K V
  init_page p = record p { version_lock = init_version; free_slots = λ i. true }

  abbrev pub page_at : Viper K V → ℕ → ℕ → ViperPage K V
  page_at v block page = v.v_blocks block page

  abbrev pub set_page : Viper K V → ℕ → ℕ → ViperPage K V → Viper K V
  set_page v block page p = record v {
    v_blocks = update v.v_blocks block (update (v.v_blocks block) page p);
  }

  -- ViperPageBlock::is_owned
  unfoldable pub is_owned : ViperPageBlock K V → Bool
  is_owned b = is_bit_set (b 0).version_lock client_bit

  unfoldable pub all_unused : ℕ → ViperPageBlock K V → Bool
  all_unused zero b = true
  all_unused (suc n) b = not (is_bit_set (b n).version_lock used_bit) && all_unused n b

  -- ViperPageBlock::is_unused
  unfoldable pub is_unused : Viper K V → ViperPageBlock K V → Bool
  unfolding all_unused
  is_unused v b = all_unused v.layout.num_pages b
