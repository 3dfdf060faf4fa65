-- ===== src/Sync/Journal.antt =====
-- SyncJournal of sync-client/rootark-sync-journal.js: the operations that wait for the server and
-- the names of those that are done, with the file write of each commit as an input.
pub mod Invariant
pub mod Delivery
use servidor_drive.Prelude.{
  ℕ, String, Bool, true, false, not, ◌||◌, Option, none, some, List, [], ◌∷◌, ◌++◌, map, any, keep,
  includes, is_empty, slice_last, ◌===◌, if◌then◌else◌, Result, ok, err,
}
use servidor_drive.Prelude.Objects.{Object, set}

abbrev pub max_entries : ℕ
max_entries = 10000

-- A pending operation: its name and its other properties.
pub record Item : Type 0 where
  pub operation_id : String
  pub properties : Object String

pub record State : Type 0 where
  pub pending : List Item
  pub seen : List String

-- `rejected`: the promise in `queue` is rejected, and each later `then` passes the rejection on.
pub record SyncJournal : Type 0 where
  pub state : State
  pub rejected : Bool

abbrev pub init : SyncJournal
init = record { state = record { pending = []; seen = [] }; rejected = false }

pub data JournalError : Type 0 where
  operation_id_required write_failed invalid_journal : JournalError

abbrev pub has_id : String → Item → Bool
has_id operation_id item = item.operation_id === operation_id

-- The part of `commit` after the mutator: both lists are cut to their last entries.
unfoldable pub bounded : State → State
bounded next = record {
  pending = slice_last max_entries next.pending;
  seen = slice_last max_entries next.seen;
}

-- `commit`: `next` is what the mutator makes of the copy, and `left` what stands in the old state
-- if the write fails, since the copy shares its items with the old list.
unfoldable pub commit : Bool → State → State → SyncJournal → Result JournalError Unit × SyncJournal
unfolding bounded
commit written next left j =
    if j.rejected
    then (err write_failed, j)
    else if written
    then (ok tt, record { state = bounded next; rejected = false })
    else (err write_failed, record { state = left; rejected = true })

unfoldable pub enqueued : Item → State → State
enqueued operation s =
    if includes operation.operation_id s.seen || any (has_id operation.operation_id) s.pending
    then s
    else record s { pending = s.pending ++ operation ∷ [] }

unfoldable pub enqueue : Bool → Item → SyncJournal → Result JournalError Unit × SyncJournal
unfolding commit
enqueue written operation j =
    if is_empty operation.operation_id
    then (err operation_id_required, j)
    else commit written (enqueued operation j.state) j.state j

unfoldable pub marked : String → State → State
marked operation_id s = record {
  pending = keep (λ item. not (has_id operation_id item)) s.pending;
  seen = if includes operation_id s.seen then s.seen else s.seen ++ operation_id ∷ [];
}

unfoldable pub mark_seen : Bool → String → SyncJournal → Result JournalError Unit × SyncJournal
unfolding commit
mark_seen written operation_id j = commit written (marked operation_id j.state) j.state j

-- A patch may name another operation.
pub record Patch : Type 0 where
  pub operation_id : Option String
  pub properties : Object String

assign_all : Object String → Object String → Object String
assign_all o [] = o
assign_all o ((k, v) ∷ patch) = assign_all (set k v o) patch

abbrev or_same : Option String → String → String
or_same none old = old
or_same (some new) old = new

-- `Object.assign(operation, patch)`
assign : Item → Patch → Item
unfolding assign_all
assign item patch = record {
  operation_id = or_same patch.operation_id item.operation_id;
  properties = assign_all item.properties patch.properties;
}

-- The first item of that name is changed, if there is one.
change_first : String → (Item → Item) → List Item → List Item
change_first operation_id f [] = []
change_first operation_id f (item ∷ items) =
    if has_id operation_id item then f item ∷ items else item ∷ change_first operation_id f items

-- `update` assigns to an item that the copy shares with the state, so its effect stays when the
-- write fails.
unfoldable pub update : Bool → String → Patch → SyncJournal → Result JournalError Unit × SyncJournal
unfolding commit change_first assign
update written operation_id patch j =
    let next : State = record (j.state) {
      pending = change_first operation_id (λ item. assign item patch) j.state.pending;
    } in
    commit written next next j

unfoldable pub replaced : String → Item → State → State
unfolding change_first
replaced operation_id replacement s = record s {
  pending = change_first operation_id (λ item. replacement) s.pending;
}

unfoldable pub replace : Bool → String → Item → SyncJournal → Result JournalError Unit × SyncJournal
unfolding commit replaced
replace written operation_id replacement j =
    commit written (replaced operation_id replacement j.state) j.state j

unfoldable pub pending : SyncJournal → List Item
pending j = j.state.pending

unfoldable pub has_seen : String → SyncJournal → Bool
has_seen operation_id j = includes operation_id j.state.seen

-- What the journal's file holds: nothing, something that is no journal, or a state.
pub data JournalFile : Type 0 where
  missing invalid : JournalFile
  saved : State → JournalFile

-- `open`, with whether the first write of a missing file succeeds.
unfoldable pub open_journal : Bool → JournalFile → Result JournalError SyncJournal
open_journal written missing = if written then ok init else err write_failed
open_journal written invalid = err invalid_journal
open_journal written (saved s) = ok (record { state = s; rejected = false })
