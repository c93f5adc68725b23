-- ===== src/Txn.antt =====
-- ffi/src/txn.rs: the bodies of the transaction entry points. `TxnInner` is in Iter/Machine.
pub mod Calls
pub mod Resolve
pub mod Once
pub mod Iterators
pub mod Live
mod Runs
use go_regolith.Base.{ℕ, Option, none, some, Bool, true, false, not, ◌==◌, if◌then◌else◌}
use go_regolith.Base.Text.{codes}
use go_regolith.Failure.{
  Bytes, Failure, code, invalid_arg, not_found, read_only_txn, discarded, EngineError,
  from_engine_error, TransactionError, from_transaction_error, Payload, Result, ok, err, panic,
}
use go_regolith.Exec.{Exec, pure, raise, lift, gets, require, ◌>>=◌, ◌>>◌}
use go_regolith.Guard.{Heap, Host, Reply, guard, out_bool, out_borrowed, Lent}
use go_regolith.Iter.Bounds.{InPointer, in_bytes, RegolithIterOptions, bounds_from}
use go_regolith.Iter.Machine.{Scans, TxnInner, unusable, live, RegolithIter, over_txn}

-- How a call of the engine ends: it returns, with either of the engine's two error types, or panics.
pub data Call (A : Type 0) : Type 0 where
  returned : A → Call A
  engine_error : EngineError → Call A
  transaction_error : TransactionError → Call A
  unwound : Payload → Call A

-- The `?` on it.
unfoldable pub asked : {A : Type 0} → Call A → Result A
unfolding from_engine_error from_transaction_error
asked (returned a) = ok a
asked (engine_error e) = err (from_engine_error e)
asked (transaction_error e) = err (from_transaction_error e)
asked (unwound p) = panic p

-- `OwnedTransaction` of the engine. Its reads and writes go through `&self`, and may change what it has
-- buffered or recorded; `commit` and `rollback` consume it.
pub record Transactions (Txn : Type 0) : Type 1 where
  pub Db : Type 0
  pub get_slice : Bytes → Txn → Call (Option Bytes) × Txn
  pub put : Bytes → Bytes → Txn → Call (Unit {0}) × Txn
  pub remove : Bytes → Txn → Call (Unit {0}) × Txn
  pub commit : Txn → Db → Call (Unit {0}) × Db
  pub rollback : Txn → Db → Db

module _ (scans : Scans) (api : Transactions scans.Txn) where
  open scans use {Txn}
  open api use {Db, get_slice, put, remove}

  -- What a call reaches. `handle` is the transaction cell that the handle's `Arc` points at, none for a
  -- null pointer and, after the call, for a handle that was freed.
  pub record Seat : Type 0 where
    pub handle : Option ℕ
    pub cells : ℕ → TxnInner Txn
    pub pins : Heap Bytes
    pub db : Db

  -- What the `RwLock` of one cell holds is replaced.
  unfoldable pub hold : ℕ → Option Txn → Seat → Seat
  hold id t s = record s {
    cells = λ i. if i == id then record (s.cells id) { txn = t } else s.cells i;
  }

  -- `txn_ref!`
  unfoldable pub on_txn : {A : Type 0} → (ℕ → Exec Seat A) → Exec Seat A
  on_txn f s = elim s.handle [
    | none ↦ (err (invalid_arg (codes "null txn handle")), s)
    | some id ↦ f id s
  ]

  -- `inner.with(body)??`. The body runs under a read guard, and a panic under one poisons nothing.
  unfoldable pub with_live : {A : Type 0} → ℕ → (Txn → Call A × Txn) → Exec Seat A
  unfolding live hold asked
  with_live id body s = elim (live (s.cells id)) [
    | ok t ↦ (asked (body t).0, hold id (some (body t).1) s)
    | err f ↦ (err f, s)
    | panic p ↦ (panic p, s)
  ]

  unfoldable pub take : ℕ → Exec Seat Txn
  unfolding hold
  take id s = if (s.cells id).poisoned then (err unusable, s) else elim (s.cells id).txn [
    | none ↦ (err (code discarded), s)
    | some t ↦ (ok t, hold id none s)
  ]

  -- `outs` is which of the three out-params are not null.
  unfoldable pub lend : Bytes → Bool × Bool × Bool → Exec Seat Lent
  unfolding out_borrowed
  lend slice (val, val_len, value_handle) s =
      let (r, pins) = out_borrowed slice val val_len value_handle s.pins in
      (r, record s { pins = pins })

  unfoldable pub get_borrowed : InPointer → ℕ → Bool × Bool × Bool → Exec Seat Lent
  unfolding on_txn with_live lend in_bytes
  get_borrowed key key_len outs = on_txn (λ id. do
    k ← require (in_bytes key key_len) (invalid_arg (codes "null key"))
    found ← with_live id (get_slice k)
    slice ← require found (code not_found)
    lend slice outs)

  abbrev pub is_some : {A : Type 0} → Option A → Bool
  is_some none = false
  is_some (some a) = true

  unfoldable pub has : InPointer → ℕ → Bool → Exec Seat ℕ
  unfolding on_txn with_live in_bytes out_bool
  has key key_len found = on_txn (λ id. do
    k ← require (in_bytes key key_len) (invalid_arg (codes "null key"))
    value ← with_live id (get_slice k)
    lift (out_bool (is_some value) found))

  abbrev pub both : Option Bytes → Option Bytes → Option (Bytes × Bytes)
  both (some k) (some v) = some (k, v)
  both _ _ = none

  -- `if handle.inner.readonly { return Err(..) }`
  unfoldable pub writable : ℕ → Exec Seat (Unit {0})
  writable id s = if (s.cells id).readonly then (err (code read_only_txn), s) else (ok tt, s)

  unfoldable pub set : InPointer → ℕ → InPointer → ℕ → Exec Seat (Unit {0})
  unfolding on_txn with_live in_bytes writable
  set key key_len value value_len = on_txn (λ id. do
    writable id
    (k, v) ←
        require (both (in_bytes key key_len) (in_bytes value value_len))
          (invalid_arg (codes "null key or value"))
    with_live id (put k v))

  unfoldable pub delete : InPointer → ℕ → Exec Seat (Unit {0})
  unfolding on_txn with_live in_bytes writable
  delete key key_len = on_txn (λ id. do
    writable id
    k ← require (in_bytes key key_len) (invalid_arg (codes "null key"))
    with_live id (remove k))

  unfoldable pub iter : Option RegolithIterOptions → Bool → Exec Seat (RegolithIter scans)
  unfolding on_txn over_txn bounds_from
  iter opts out = on_txn (λ id s.
      if not out
      then (err (invalid_arg (codes "null out-param")), s)
      else (over_txn scans id (s.cells id) (bounds_from opts), s))

  -- `Box::from_raw`: the box is dropped on every path, so the handle is gone.
  unfoldable pub unbox : Exec Seat (Unit {0})
  unbox s = (ok tt, record s { handle = none })

  unfoldable pub commit : Exec Seat (Unit {0})
  unfolding on_txn unbox take asked
  commit = on_txn (λ id. do
    unbox
    t ← take id
    λ s. let (r, db) = api.commit t s.db in (asked r, record s { db = db }))

  unfoldable pub roll_back : Txn → Seat → Seat
  roll_back t s = record s { db = api.rollback t s.db }

  unfoldable pub discard : Exec Seat (Unit {0})
  unfolding on_txn take roll_back
  discard = on_txn (λ id s.
      let (r, s') = take id s in
      elim r [
        | ok t ↦ (ok tt, roll_back t s')
        | err f ↦ if f.status == discarded then (ok tt, s') else (err f, s')
        | panic p ↦ (panic p, s')
      ])

  unfoldable pub free_txn : Exec Seat (Unit {0})
  unfolding on_txn unbox take roll_back
  free_txn = on_txn (λ id. do
    unbox
    λ s.
        let (r, s') = take id s in
        elim r [ ok t ↦ (ok tt, roll_back t s') | err f ↦ (ok tt, s') | panic p ↦ (panic p, s') ])
