-- ===== src/Examples/Strings.antt =====
-- A store of strings and a client (include/viper/viper.hpp), at concrete inputs.
use hih.Prelude.{
  ℕ, ◌+◌, true, false, ◌≡◌, ◌≢◌, refl, inl, inr, arith, List, [], ◌∷◌, length, range_from,
  if◌then◌else◌, ◌==◌,
}
use hih.Offset.{KeyValueOffset, pack}
use hih.Page.Lock.{init_version}
use hih.Index.Directory.{new_cceh}
use hih.Store.Run.{Run, ok, fault}
use hih.Store.State.{CacheEntry}
use hih.Store.Access.{new_client, update_access_information, advance_by}
use hih.VarSize.Entry.{read_bytes, read_entry, entry_of, read_word, new_entry}
use hih.VarSize.Page.{StringKey, VarViper, VarClient, update_var_size_page_information}
use hih.VarSize.Read.{value_at, check_var_key_equality}
use hih.VarSize.Put.{write_record, write_split}
use hih.VarSize.Put.Reads.{Holds, IsStorable}
use hih.VarSize.Put.Readback.{GoesOn, write_record-Holds}
use hih.VarSize.Put.Misread.{stay-GoesOn, write_record_unrecognized}
use hih.VarSize.Put.Earlier.{write_record-value_at}

-- A key of two characters whose object begins with the bytes of a pointer.
abbrev two : StringKey
two = record { chars = b'a' ∷ b'b' ∷ []; memory = λ i. 16 + i }

abbrev twenty : List ℕ
twenty = range_from 100 20

-- A record at position 0: is_set, a key of two bytes and a value of one byte.
abbrev one_record : ℕ → ℕ
one_record i = if i == 0 then 5 else if i == 2 then 1 else 7

-- Four blocks of six pages, each filled up to 4080, with a record at its start.
abbrev strings : VarViper
strings = record {
  base = record {
    config = record {
      beyond_threshold = λ b n. false;
      free_threshold = λ n. 0;
      reclaim_threshold = 1000000;
      enable_reclamation = false;
    };
    layout = record { is_string = true; num_slots = 0; num_pages = 6 };
    v_blocks = λ b p. record {
      version_lock = init_version;
      free_slots = λ i. true;
      entry = λ i. (two, []);
    };
    num_v_blocks = 4;
    current_block_page = pack 2 0 0;
    free_blocks = [];
    num_used_blocks = 1;
    map = new_cceh 2;
    current_size = 0;
    reclaimable_ops = 0;
    num_active_clients = 1;
    is_resizing = false;
    is_reclaiming = false;
    random = λ i. i;
  };
  pages = λ b p. record { next_insert_offset = 4080; modified_percentage = 0; bytes = one_record };
}

abbrev no_strings : ℕ → CacheEntry (List ℕ)
no_strings i = record { key_buf = []; value = []; occupied = false }

-- On page 2 of block 1, the third that it uses.
abbrev writer : VarClient
writer = record (new_client no_strings) {
  has_block = true;
  v_block_number = 1;
  v_page_number = 2;
  num_v_pages_processed = 2;
}

storable : IsStorable two twenty
storable = record { key_fits = omega arith; value_fits = omega arith; value_some = omega arith }

writer_goes : GoesOn strings writer
unfolding new_client
writer_goes =
    stay-GoesOn strings writer refl (omega arith) (omega arith) (omega arith) (omega arith)

write_record-Holds_example :
    (s' : VarViper) × (c' : VarClient) × (offset : KeyValueOffset) × (write_record strings writer
        two twenty
      ≡ ok (s', c', offset))
    × Holds s' offset two twenty
write_record-Holds_example =
    write_record-Holds two twenty storable strings writer writer_goes (omega arith)

apart : read_bytes 0 (length two.chars) two.memory ≢ two.chars
unfolding read_bytes
apart e = cc e

write_record_unrecognized_example :
    (s' : VarViper) × (c' : VarClient) × (offset : KeyValueOffset) × (write_record strings writer
        two twenty
      ≡ ok (s', c', offset))
    × (check_var_key_equality s' two offset ≡ false)
write_record_unrecognized_example =
    write_record_unrecognized two twenty storable strings writer writer_goes (omega arith) apart

abbrev result_of :
    Run (VarViper × VarClient × KeyValueOffset) → VarViper × VarClient × KeyValueOffset
result_of (ok r) = r
result_of (fault e) = (strings, writer, pack 0 0 0)

abbrev result : VarViper × VarClient × KeyValueOffset
result = result_of (write_record strings writer two twenty)

did_write : write_record strings writer two twenty ≡ ok (result.0, result.1, result.2)
unfolding write_record update_var_size_page_information update_access_information advance_by
    new_client write_split new_entry
did_write = refl

write_record-value_at_example : value_at result.0 1 2 0 ≡ value_at strings 1 2 0
unfolding write_record update_var_size_page_information update_access_information advance_by
    new_client write_split new_entry read_entry read_word entry_of
write_record-value_at_example =
    write_record-value_at two twenty strings writer result.0 result.1 result.2 1 2 0 writer_goes
      did_write (omega arith) (inr (omega arith)) (inl (inr (λ e. omega arith)))
