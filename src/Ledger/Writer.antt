-- ===== src/Ledger/Writer.antt =====
-- `LedgerWriter` of src/ledger/mod.rs. Whether a call of the database or of the file system works is
-- told by the number of the call: a statement that fails inserts nothing, and a line that could not
-- be appended is not in the file. Both are documented, of a single SQL statement and of a write that
-- reports an error before the first byte.
pub mod Kept
pub mod Replay
pub mod Unique
use brigh_to_router.Prelude.{
  ℕ, ◌+◌, Bool, true, false, ◌&&◌, Option, none, some, List, [], ◌∷◌, ◌++◌, length, leb,
  if◌then◌else◌,
}
use brigh_to_router.Prelude.Eq.{list_beq}
use brigh_to_router.Prelude.Text.{Text}
use brigh_to_router.Ledger.{UsageEvent}

pub record Outcomes : Type 0 where
  pub inserts : ℕ → Bool
  pub queries : ℕ → Bool
  pub appends : ℕ → Bool
  pub renames : ℕ → Bool
  pub removes : ℕ → Bool
  pub connects : ℕ → Bool

-- The rows of the database, the lines of the fallback file and of the file being replayed, where
-- there are such files, and the number of calls made.
pub record Store : Type 0 where
  pub rows : List UsageEvent
  pub fallback : Option (List UsageEvent)
  pub replay : Option (List UsageEvent)
  pub calls : ℕ

pub record Ledger : Type 0 where
  pub store : Store
  pub batch : List UsageEvent
  pub pool : Bool
  pub overflow_open : Bool

-- What wakes the loop: an event or the end of one of the channels, or the timer.
pub data Wake : Type 0 where
  primary overflow : Option UsageEvent → Wake
  tick : Wake

-- The loop goes on, returns, or returns an error.
pub data Outcome : Type 0 where
  going returned errored : Outcome

abbrev pub lines : Option (List UsageEvent) → List UsageEvent
lines none = []
lines (some es) = es

abbrev pub called : Store → Store
called s = record s { calls = s.calls + 1 }

unfoldable pub has_request : Text → List UsageEvent → Bool
has_request id [] = false
has_request id (e ∷ es) = if list_beq e.request_id id then true else has_request id es

module _ (works : Outcomes) where
  -- `true` is success.
  unfoldable pub insert_batch : List UsageEvent → Store → Store × Bool
  insert_batch [] s = (s, true)
  insert_batch (e ∷ es) s =
      if works.inserts s.calls
      then (record s { rows = s.rows ++ e ∷ es; calls = s.calls + 1 }, true)
      else (called s, false)

  unfoldable pub append_fallback : UsageEvent → Store → Store × Bool
  append_fallback e s =
      if works.appends s.calls
      then (record s { fallback = some (lines s.fallback ++ e ∷ []); calls = s.calls + 1 }, true)
      else (called s, false)

  -- `?` on the result of a call.
  abbrev pub and_then : Store × Bool → (Store → Store × Bool) → Store × Bool
  and_then (s, true) f = f s
  and_then (s, false) f = (s, false)

  unfoldable pub append_all : List UsageEvent → Store → Store × Bool
  append_all [] s = (s, true)
  append_all (e ∷ es) s = and_then (append_fallback e s) (append_all es)

  after_insert : List UsageEvent → Store × Bool → Store × Bool
  after_insert batch (s, true) = (s, true)
  after_insert batch (s, false) = ((append_all batch s).0, false)

  unfoldable pub flush_batch : List UsageEvent → Store → Store × Bool
  unfolding after_insert
  flush_batch batch s = after_insert batch (insert_batch batch s)

  unfoldable pub replay_line : UsageEvent → Store → Store × Bool
  replay_line e s =
      if works.queries s.calls
      then if has_request e.request_id s.rows
        then (called s, true)
        else insert_batch (e ∷ []) (called s)
      else (called s, false)

  unfoldable pub replay_lines_to_db : List UsageEvent → Store → Store × Bool
  replay_lines_to_db [] s = (s, true)
  replay_lines_to_db (e ∷ es) s = and_then (replay_line e s) (replay_lines_to_db es)

  -- The file is removed after a replay, and otherwise takes the old name again, if that works.
  after_replay : List UsageEvent → Store × Bool → Store × Bool
  after_replay es (s, true) =
      if works.removes s.calls
      then (record s { replay = none; calls = s.calls + 1 }, true)
      else (called s, false)
  after_replay es (s, false) =
      if works.renames s.calls
      then (record s { fallback = some es; replay = none; calls = s.calls + 1 }, false)
      else (called s, false)

  -- A rename replaces a file of the new name.
  replay_file : Option (List UsageEvent) → Store → Store × Bool
  unfolding after_replay
  replay_file none s = (s, true)
  replay_file (some es) s =
      if works.renames s.calls
      then after_replay es (
          replay_lines_to_db es
            (record s { fallback = none; replay = some es; calls = s.calls + 1 }))
      else (called s, false)

  unfoldable pub replay_fallback : Store → Store × Bool
  unfolding replay_file
  replay_fallback s = replay_file s.fallback s
