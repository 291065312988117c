-- ===== src/VarSize/Page.antt =====
-- The state of Viper<std::string, std::string>, its pages and the access of its clients
-- (include/viper/viper.hpp). The lock bytes of the pages and all that does not depend on the type of
-- the records are those of Store/State, whose pages have no slots here; the other fields of a page
-- stand beside them.
use hih.Prelude.{ℕ, ◌+◌, ◌%◌, ◌^◌, List, update}
use hih.Store.Run.{Run, ok, ◌>>=◌}
use hih.Store.State.{Viper, Client, CacheEntry}
use hih.Store.Access.{update_access_information, get_new_access_information, new_client}

-- A const std::string& argument as the operations use it: its characters, and the bytes from the
-- address of the object on.
pub record StringKey : Type 0 where
  pub chars : List ℕ
  pub memory : ℕ → ℕ

-- v_page_size, METADATA_SIZE and DATA_SIZE
abbrev pub v_page_size : ℕ
v_page_size = 4096

abbrev pub metadata_size : ℕ
metadata_size = 4

abbrev pub data_size : ℕ
data_size = 4092

-- ViperPage<std::string, std::string> without its version_lock. What is beyond data_size in `bytes`
-- stands for what follows the page.
pub record VarPage : Type 0 where
  pub next_insert_offset : ℕ
  pub modified_percentage : ℕ
  pub bytes : ℕ → ℕ

-- ViperPage<std::string, std::string>::init
unfoldable pub init_var_page : VarPage → VarPage
init_var_page p = record p { next_insert_offset = 0; modified_percentage = 0 }

-- Viper<std::string, std::string>; its layout has `is_string`.
pub record VarViper : Type 0 where
  pub base : Viper StringKey (List ℕ)
  pub pages : ℕ → ℕ → VarPage

abbrev pub VarClient : Type 0
VarClient = Client (List ℕ)

abbrev pub var_page_at : VarViper → ℕ → ℕ → VarPage
var_page_at s block page = s.pages block page

abbrev pub set_var_page : VarViper → ℕ → ℕ → VarPage → VarViper
set_var_page s block page p = record s {
  pages = update s.pages block (update (s.pages block) page p);
}

-- *v_page_
abbrev pub var_current : VarViper → VarClient → VarPage
var_current s c = var_page_at s c.v_block_number c.v_page_number

abbrev pub set_var_current : VarViper → VarClient → VarPage → VarViper
set_var_current s c p = set_var_page s c.v_block_number c.v_page_number p

-- The fields of the page that a client has come to, initialised.
abbrev pub init_var_current : VarViper → VarClient → VarViper
init_var_current s c = set_var_current s c (init_var_page (var_current s c))

-- update_var_size_page_information: update_access_information initialises the page that it comes
-- to, and next_insert_offset is set once more.
unfoldable pub update_var_size_page_information : VarViper → VarClient → Run (VarViper × VarClient)
update_var_size_page_information s c = do
  (base, c') ← update_access_information s.base c
  let entered = init_var_current (record s { base = base }) c'
  ok (set_var_current entered c' (record (var_current entered c') { next_insert_offset = 0 }), c')

-- get_new_var_size_access_information: num_used_blocks is counted up once more.
unfoldable pub get_new_var_size_access_information :
    VarViper → VarClient → Run (VarViper × VarClient)
get_new_var_size_access_information s c = do
  (base, c') ← get_new_access_information s.base c
  let counted : Viper StringKey (List ℕ) = record base {
    num_used_blocks = base.num_used_blocks + 1;
  }
  let entered = init_var_current (record s { base = counted }) c'
  ok (set_var_current entered c' (record (var_current entered c') { next_insert_offset = 0 }), c')

-- get_client
unfoldable pub get_var_client : VarViper → (ℕ → CacheEntry (List ℕ)) → Run (VarViper × VarClient)
get_var_client s cache =
    let base : Viper StringKey (List ℕ) = record s.base {
      num_active_clients = (s.base.num_active_clients + 1) % 2 ^ 8;
    } in
    get_new_var_size_access_information (record s { base = base }) (new_client cache)
