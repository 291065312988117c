-- ===== src/Store/Deadlock.antt =====
-- How clients that hold a page and wait for another one exchange the records that they have to free
-- (include/viper/viper.hpp, free_occupied_slot with deadlock_offsets_), as steps of many calls.
pub mod Freed
pub mod Mutual
use hih.Prelude.{
  ℕ, ◌≡◌, Bool, true, false, ◌==◌, ◌&&◌, ◌||◌, not, if◌then◌else◌, List, [], ◌∷◌, ◌++◌, update,
}
use hih.Offset.{KeyValueOffset, get_offsets}

-- Where a call is: before it has the lock on the page of its record; with that lock, the record
-- freed; or done.
pub data Phase : Type 0 where
  waiting holding returned : Phase

-- A call of free_occupied_slot for a record on another page than the client's own, which the client
-- has locked: `inserted` and `encountered` are deadlock_offset_inserted and encountered_own_offset.
pub record Call : Type 0 where
  pub v_block_number : ℕ
  pub v_page_number : ℕ
  pub offset_to_delete : KeyValueOffset
  pub inserted : Bool
  pub encountered : Bool
  pub phase : Phase

-- What the calls share: the locks of the pages, deadlock_offsets_, and the offsets that
-- invalidate_record was called for, the last one first.
pub record Shared : Type 0 where
  pub locked : ℕ → ℕ → Bool
  pub deadlock_offsets : List KeyValueOffset
  pub invalidated : List KeyValueOffset

-- A call before its first attempt.
abbrev pub new_call : ℕ → ℕ → KeyValueOffset → Call
new_call block page offset = record {
  v_block_number = block;
  v_page_number = page;
  offset_to_delete = offset;
  inserted = false;
  encountered = false;
  phase = waiting;
}

abbrev pub same_offset : KeyValueOffset → KeyValueOffset → Bool
same_offset a b = a.offset == b.offset

-- The offset is on the client's own page.
unfoldable pub on_own_page : Call → KeyValueOffset → Bool
on_own_page w offset =
    (get_offsets offset).0 == w.v_block_number && (get_offsets offset).1 == w.v_page_number

-- new_offsets: those on other pages stay.
unfoldable pub new_offsets : Call → List KeyValueOffset → List KeyValueOffset
new_offsets w [] = []
new_offsets w (o ∷ rest) =
    let kept = new_offsets w rest in if on_own_page w o then kept else o ∷ kept

-- Those that are invalidated, in their order.
unfoldable pub own_offsets : Call → List KeyValueOffset → List KeyValueOffset
own_offsets w [] = []
own_offsets w (o ∷ rest) =
    let mine = own_offsets w rest in if on_own_page w o then o ∷ mine else mine

unfoldable pub is_among : KeyValueOffset → List KeyValueOffset → Bool
is_among o [] = false
is_among o (x ∷ rest) = same_offset o x || is_among o rest

-- erase of what find finds.
unfoldable pub erase : KeyValueOffset → List KeyValueOffset → List KeyValueOffset
erase o [] = []
erase o (x ∷ rest) = let erased = erase o rest in if same_offset o x then rest else x ∷ erased

-- What is done under deadlock_offset_lock_ when the lock on the page was not to be had.
unfoldable pub exchange : Call → Shared → Shared × Call
exchange w s =
    let offsets =
      if w.inserted then s.deadlock_offsets else s.deadlock_offsets ++ (w.offset_to_delete ∷ []) in
    let encountered = is_among w.offset_to_delete offsets in
    (
      record s {
        deadlock_offsets = new_offsets w offsets;
        invalidated = own_offsets w offsets ++ s.invalidated;
      },
      record w {
        inserted = true;
        encountered = encountered;
        phase = if encountered then waiting else returned;
      },
    )

abbrev pub set_locked : Shared → KeyValueOffset → Bool → Shared
set_locked s o b = record s {
  locked =
      update s.locked (get_offsets o).0 (update (s.locked (get_offsets o).0) (get_offsets o).1 b);
}

-- The compare-and-swap that succeeds, and invalidate_record.
unfoldable pub take_page : Call → Shared → Shared × Call
take_page w s = (
  record (set_locked s w.offset_to_delete true) {
    invalidated = w.offset_to_delete ∷ s.invalidated;
  },
  record w { phase = holding },
)

-- The end of a call that has the lock.
unfoldable pub finish_call : Call → Shared → Shared × Call
finish_call w s =
    let offsets =
      if w.inserted && w.encountered
      then erase w.offset_to_delete s.deadlock_offsets
      else s.deadlock_offsets in
    (
      record (set_locked s w.offset_to_delete false) { deadlock_offsets = offsets },
      record w { phase = returned },
    )

pub record State : Type 0 where
  pub calls : ℕ → Call
  pub shared : Shared

abbrev pub with_call : State → ℕ → Shared × Call → State
with_call s i r = record { calls = update s.calls i r.1; shared = r.0 }

-- One step of one call, or a change of locks by clients that do something else.
pub data Step (s : State) : State → Type 0 where
  exchanges :
      (i : ℕ) → (s.calls i).phase ≡ waiting → Step s (with_call s i (exchange (s.calls i) s.shared))
  takes :
      (i : ℕ)
      → (s.calls i).phase ≡ waiting
      → s.shared.locked
          (get_offsets (s.calls i).offset_to_delete).0
          (get_offsets (s.calls i).offset_to_delete).1
        ≡ false
      → Step s (with_call s i (take_page (s.calls i) s.shared))
  finishes :
      (i : ℕ)
      → (s.calls i).phase ≡ holding
      → Step s (with_call s i (finish_call (s.calls i) s.shared))
  relocks :
      (locked : ℕ → ℕ → Bool) → Step s (record s { shared = record s.shared { locked = locked } })

-- Any number of steps.
pub data Steps (s : State) : State → Type 0 where
  none_yet : Steps s s
  then_step : {t u : State} → Steps s t → Step t u → Steps s u
