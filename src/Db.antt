-- ===== src/Db.antt =====
-- ffi/src/db.rs: the bodies of the store's entry points.
pub mod Utf8
pub mod Calls
pub mod Opening
use go_regolith.Base.{ℕ, Option, none, some, Bool, true, false, not, ◌==◌, if◌then◌else◌}
use go_regolith.Base.Text.{codes}
use go_regolith.Failure.{Bytes, invalid_arg, not_found, code, Result, ok, err, panic}
use go_regolith.Exec.{Exec, pure, raise, lift, require, ◌>>=◌, ◌>>◌}
use go_regolith.Guard.{Heap, out_bool, out_borrowed, Lent}
use go_regolith.Batch.{WriteBatch, decode}
use go_regolith.Options.{
  RegolithOptions, EngineOptions, ResolvedOptions, IsolationLevel, options_from,
}
use go_regolith.Iter.Bounds.{InPointer, in_bytes, RegolithIterOptions, bounds_from}
use go_regolith.Iter.Machine.{Scans, TxnInner, RegolithIter, over_snapshot}
use go_regolith.Txn.{Call, asked, Transactions, both}
use go_regolith.Db.Utf8.{from_utf8}

-- `OptimisticTransactionDb` of the engine and the `Db` under it. `Disk` is what a store leaves behind.
-- A read changes nothing that another call can see.
pub record Databases (scans : Scans) (txns : Transactions scans.Txn) (batches : WriteBatch)
    (Others : Type 0) : Type 1 where
  pub Disk : Type 0
  pub open_store : Bytes → EngineOptions Others → Disk → Call txns.Db × Disk
  pub with_isolation : IsolationLevel → txns.Db → txns.Db
  pub isolation : txns.Db → IsolationLevel
  pub close : txns.Db → Disk → Call (Unit {0}) × Disk
  pub get_slice : Bytes → txns.Db → Call (Option Bytes)
  pub has : Bytes → txns.Db → Call Bool
  pub put : Bytes → Bytes → txns.Db → Call (Unit {0}) × txns.Db
  pub remove : Bytes → txns.Db → Call (Unit {0}) × txns.Db
  pub write : batches.Batch → txns.Db → Call (Unit {0}) × txns.Db
  pub drop_all : txns.Db → Call (Unit {0}) × txns.Db
  pub snapshot : txns.Db → scans.Cursor
  pub begin_transaction_owned : IsolationLevel → txns.Db → scans.Txn × txns.Db

module _ {Others : Type 0} (usize_max : ℕ) (defaults : ResolvedOptions Others) (scans : Scans)
    (txns : Transactions scans.Txn) (batches : WriteBatch)
    (api : Databases scans txns batches Others) where
  open txns use {Db}

  -- What a call reaches: the store that the handle leads to, none for a null pointer and, after the
  -- call, for a handle that was freed.
  pub record Desk : Type 0 where
    pub handle : Option Db
    pub pins : Heap Bytes
    pub disk : api.Disk

  -- `db_ref!`
  unfoldable pub on_db : {A : Type 0} → (Db → Exec Desk A) → Exec Desk A
  on_db f d = elim d.handle [
    | none ↦ (err (invalid_arg (codes "null db handle")), d)
    | some db ↦ f db d
  ]

  -- A call of the engine that changes the store, and the `?` on it.
  unfoldable pub changed : {A : Type 0} → Call A × Db → Exec Desk A
  unfolding asked
  changed (r, db) d = (asked r, record d { handle = some db })

  -- The `?` on the engine's answer, and what is done with the store.
  unfoldable pub opened :
      IsolationLevel → Call Db × api.Disk → Exec (Option Db × api.Disk) (Unit {0})
  unfolding asked
  opened level (r, disk') (handle, disk) = elim (asked r) [
    | ok db ↦ (ok tt, (some (api.with_isolation level db), disk'))
    | err f ↦ (err f, (handle, disk'))
    | panic p ↦ (panic p, (handle, disk'))
  ]

  unfoldable pub open_with_options :
      InPointer → ℕ → Option RegolithOptions → Bool → Exec (Option Db × api.Disk) (Unit {0})
  unfolding in_bytes from_utf8 options_from opened
  open_with_options path path_len opts out =
      if not out then raise (invalid_arg (codes "null out-param")) else (do
        bytes ← require (in_bytes path path_len) (invalid_arg (codes "null path"))
        text ← require (from_utf8 bytes) (invalid_arg (codes "path is not valid utf-8"))
        options ← lift (options_from usize_max defaults opts)
        λ (handle, disk).
            opened options.isolation (api.open_store text options.engine disk) (handle, disk))

  -- The box that `Box::from_raw` takes back is dropped on every path.
  unfoldable pub close : Exec Desk (Unit {0})
  unfolding on_db asked
  close = on_db (λ db d.
      let (r, disk) = api.close db d.disk in (asked r, record d { handle = none; disk = disk }))

  unfoldable pub lend : Bytes → Bool × Bool × Bool → Exec Desk Lent
  unfolding out_borrowed
  lend slice (val, val_len, value_handle) d =
      let (r, pins) = out_borrowed slice val val_len value_handle d.pins in
      (r, record d { pins = pins })

  unfoldable pub get_borrowed : InPointer → ℕ → Bool × Bool × Bool → Exec Desk Lent
  unfolding on_db in_bytes asked lend
  get_borrowed key key_len outs = on_db (λ db. do
    k ← require (in_bytes key key_len) (invalid_arg (codes "null key"))
    found ← lift (asked (api.get_slice k db))
    slice ← require found (code not_found)
    lend slice outs)

  unfoldable pub has : InPointer → ℕ → Bool → Exec Desk ℕ
  unfolding on_db in_bytes asked out_bool
  has key key_len found = on_db (λ db. do
    k ← require (in_bytes key key_len) (invalid_arg (codes "null key"))
    value ← lift (asked (api.has k db))
    lift (out_bool value found))

  unfoldable pub set : InPointer → ℕ → InPointer → ℕ → Exec Desk (Unit {0})
  unfolding on_db in_bytes changed
  set key key_len value value_len = on_db (λ db. do
    (k, v) ←
        require (both scans txns (in_bytes key key_len) (in_bytes value value_len))
          (invalid_arg (codes "null key or value"))
    changed (api.put k v db))

  unfoldable pub delete : InPointer → ℕ → Exec Desk (Unit {0})
  unfolding on_db in_bytes changed
  delete key key_len = on_db (λ db. do
    k ← require (in_bytes key key_len) (invalid_arg (codes "null key"))
    changed (api.remove k db))

  unfoldable pub write : InPointer → ℕ → Exec Desk (Unit {0})
  unfolding on_db in_bytes decode changed
  write ops ops_len = on_db (λ db. do
    frame ← require (in_bytes ops ops_len) (invalid_arg (codes "null write batch"))
    batch ← lift (decode usize_max batches frame)
    changed (api.write batch db))

  unfoldable pub drop_all : Exec Desk (Unit {0})
  unfolding on_db changed
  drop_all = on_db (λ db. changed (api.drop_all db))

  -- The iterator, and the transaction's cell, that a new handle leads to.
  unfoldable pub iter : Option RegolithIterOptions → Bool → Exec Desk (RegolithIter scans)
  unfolding on_db bounds_from over_snapshot
  iter opts out = on_db (λ db.
      if not out
      then raise (invalid_arg (codes "null out-param"))
      else pure (over_snapshot scans (api.snapshot db) (bounds_from opts)))

  unfoldable pub txn : ℕ → Bool → Exec Desk (TxnInner scans.Txn)
  unfolding on_db
  txn readonly out = on_db (λ db d.
      if not out
      then (err (invalid_arg (codes "null out-param")), d)
      else let (owned, db') = api.begin_transaction_owned (api.isolation db) db in
        (
          ok (record { txn = some owned; poisoned = false; readonly = not (readonly == 0) }),
          record d { handle = some db' },
        ))
