-- ===== src/Go/Handles.antt =====
-- regolith.go: the methods of `DB` that give another handle, `NewIter` and `NewTxn`.
pub mod Walked
pub mod Begun
mod Runs
use go_regolith.Base.{ℕ, Option, none, some, Bool, true, false, if◌then◌else◌}
use go_regolith.Failure.{Bytes}
use go_regolith.Guard.{Heap, Host, Reply}
use go_regolith.Batch.{WriteBatch}
use go_regolith.Options.{ResolvedOptions}
use go_regolith.Iter.Bounds.{RegolithIterOptions}
use go_regolith.Iter.Machine.{Scans, TxnInner, RegolithIter}
use go_regolith.Txn.{Transactions}
use go_regolith.Db.{Databases}
use go_regolith.Db.Calls.{regolith_db_iter, regolith_db_txn}
use go_regolith.Go.Errors.{GoError, bare, err_closed}
use go_regolith.Go.Store.{finish, GoDb}
use go_regolith.Go.Iter
use go_regolith.Go.Iter.{GoIter}
use go_regolith.Go.Ranges.{
  IterOptions, CMemory, c_bool, new_iter_options, free_options, read_options,
}

module _ {Others : Type 0} (usize_max : ℕ) (defaults : ResolvedOptions Others) (scans : Scans)
    (txns : Transactions scans.Txn) (batches : WriteBatch)
    (api : Databases scans txns batches Others) where
  abbrev pub Handle : Type 0
  Handle = GoDb usize_max defaults scans txns batches api

  -- The new `Iter`, of the error objects that there are then.
  unfoldable pub iter_of :
      Bool → Option (RegolithIter scans) × Option GoError → Heap Bytes → Option (GoIter scans)
  iter_of keys_only (some it, none) errors =
      some (Iter.new_iter scans keys_only (record { errors = errors; inner = some it }))
  iter_of keys_only _ errors = none

  -- What the method returns, C memory after it, and the store's handle.
  unfoldable pub new_iter :
      IterOptions → CMemory → Handle → ((Option (GoIter scans) × Option GoError) × CMemory) × Handle
  unfolding iter_of regolith_db_iter
  new_iter opts memory g =
      if g.closed
      then (((none, bare err_closed), memory), g)
      else let (o, filled) = new_iter_options opts memory in
        let (r, host) = finish (
          regolith_db_iter usize_max defaults scans txns batches api (read_options filled o) true
            true g.host) in
        (
          ((iter_of opts.keys_only r host.errors, r.1), free_options o filled),
          record g { host = host },
        )

  -- What the handle of a new `Txn` leads to, if there is no error.
  abbrev pub txn_of : Option (TxnInner scans.Txn) × Option GoError → Option (TxnInner scans.Txn)
  txn_of (out, none) = out
  txn_of (out, some e) = none

  unfoldable pub new_txn : Bool → Handle → (Option (TxnInner scans.Txn) × Option GoError) × Handle
  unfolding regolith_db_txn c_bool
  new_txn read_only g =
      if g.closed
      then ((none, bare err_closed), g)
      else let (r, host) = finish (
          regolith_db_txn usize_max defaults scans txns batches api (c_bool read_only) true true
            g.host) in
        ((txn_of r, r.1), record g { host = host })
