-- ===== src/Iter/Machine/State.antt =====
-- The state of `RegolithIter`, what it stands on, and how one is made.
use go_regolith.Base.{
  ℕ, ◌^◌, Option, none, some, Bool, true, false, not, ◌&&◌, List, [], ◌∷◌, ◌++◌, ◌==◌,
  if◌then◌else◌,
}
use go_regolith.Base.Text.{codes}
use go_regolith.Failure.{
  Bytes, Failure, code, discarded, other, Result, ok, err, panic, EngineError, from_engine_error,
}
use go_regolith.Iter.Bounds.{Bounds, ScanDirection, bytes_lt}

-- `OwnedSnapshotIter` and `TxnScanStream` of the engine. A cursor walks a snapshot, which nothing
-- changes, so its moves are functions of the cursor; `status` is the read error, if there is one.
pub record Scans : Type 1 where
  pub Cursor : Type 0
  pub seek : Bytes → Cursor → Cursor
  pub seek_for_prev : Bytes → Cursor → Cursor
  pub seek_to_first : Cursor → Cursor
  pub seek_to_last : Cursor → Cursor
  pub next : Cursor → Cursor
  pub prev : Cursor → Cursor
  pub valid : Cursor → Bool
  pub key : Cursor → Option Bytes
  pub value : Cursor → Option Bytes
  pub value_slice : Cursor → Option Bytes
  pub status : Cursor → Option EngineError
  pub Txn : Type 0
  pub Stream : Type 0
  pub scan_stream_in : Option Bytes → Option Bytes → ScanDirection → Txn → Stream
  pub stream_next : Stream → Option (Bytes × Bytes) × Stream
  pub stream_status : Stream → Option EngineError

-- `TxnInner` of txn.rs, shared by a transaction handle and its iterators. `poisoned` is the lock's.
pub record TxnInner (Txn : Type 0) : Type 0 where
  pub txn : Option Txn
  pub poisoned : Bool
  pub readonly : Bool

abbrev pub unusable : Failure
unusable = other (codes "transaction unusable after a panic; discard it and begin a new one")

-- `TxnInner::with`: the live transaction, or the failure.
unfoldable pub live : {Txn : Type 0} → TxnInner Txn → Result Txn
live inner =
    if inner.poisoned
    then err unusable
    else elim inner.txn [ none ↦ err (code discarded) | some t ↦ ok t ]

pub record Entry : Type 0 where
  pub key : Bytes
  pub value : Option Bytes

abbrev pub max_batch_value_bytes : ℕ
max_batch_value_bytes = 2 ^ 20

unfoldable pub status_result : Option EngineError → Result Bool
status_result none = ok false
status_result (some e) = err (from_engine_error e)

-- `key >= end` for the exclusive end, where there is one.
unfoldable pub at_or_above : Option Bytes → Bytes → Bool
at_or_above none target = false
at_or_above (some end) target = not (bytes_lt target end)

-- A target under the start becomes the start.
unfoldable pub clamp_to_start : Option Bytes → Bytes → Bytes
clamp_to_start none target = target
clamp_to_start (some start) target = if bytes_lt target start then start else target

-- The exclusive end of a reverse stream that includes the target.
unfoldable pub reverse_end : Option Bytes → Bytes → Bytes
reverse_end none target = target ++ (0 ∷ [])
reverse_end (some end) target = if not (bytes_lt target end) then end else target ++ (0 ∷ [])

unfoldable pub equals : Bytes → Bytes → Bool
equals [] [] = true
equals (x ∷ xs) (y ∷ ys) = x == y && equals xs ys
equals _ _ = false

unfoldable pub is_key : Option Bytes → Bytes → Bool
is_key none end = false
is_key (some key) end = equals key end

module _ (scans : Scans) where
  open scans use {Cursor, Txn, Stream}

  -- `txn` is which transaction cell the iterator's `Arc` points at.
  pub data Source : Type 0 where
    snapshot : Cursor → Source
    scan : (txn : ℕ) → Option Stream → Option Entry → Source

  pub record RegolithIter : Type 0 where
    pub bounds : Bounds
    pub source : Source
    pub reset : Bool
    pub include_current : Bool
    pub batch_values : List Bytes
    pub batch_count : ℕ
    pub pending : Option Failure

  abbrev pub fresh : Bounds → Source → RegolithIter
  fresh bounds source = record {
    bounds = bounds;
    source = source;
    reset = true;
    include_current = false;
    batch_values = [];
    batch_count = 0;
    pending = none;
  }

  unfoldable pub over_snapshot : Cursor → Bounds → RegolithIter
  over_snapshot cursor bounds = fresh bounds (snapshot cursor)

  unfoldable pub over_txn : ℕ → TxnInner Txn → Bounds → Result RegolithIter
  unfolding live
  over_txn id inner bounds = elim (live inner) [
    | ok t ↦ ok (fresh bounds (scan id none none))
    | err f ↦ err f
    | panic p ↦ panic p
  ]
