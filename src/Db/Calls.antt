-- ===== src/Db/Calls.antt =====
-- The entry points themselves: the bodies under `guard`. `writable` says that `err` is not null.
use go_regolith.Base.{ℕ, Option, none, Bool}
use go_regolith.Guard.{Host, Reply, guard, Lent}
use go_regolith.Batch.{WriteBatch}
use go_regolith.Options.{RegolithOptions, ResolvedOptions}
use go_regolith.Iter.Bounds.{InPointer, RegolithIterOptions}
use go_regolith.Iter.Machine.{Scans, TxnInner, RegolithIter}
use go_regolith.Txn.{Transactions}
use go_regolith.Db
use go_regolith.Db.{Databases}

module _ {Others : Type 0} (usize_max : ℕ) (defaults : ResolvedOptions Others) (scans : Scans)
    (txns : Transactions scans.Txn) (batches : WriteBatch)
    (api : Databases scans txns batches Others) where
  abbrev pub Desk : Type 0
  Desk = Db.Desk usize_max defaults scans txns batches api

  abbrev Opened : Type 0
  Opened = Option txns.Db × api.Disk

  unfoldable pub regolith_db_open_with_options :
      InPointer
      → ℕ
      → Option RegolithOptions
      → Bool
      → Bool
      → Host Opened
      → Reply (Unit {0}) × Host Opened
  regolith_db_open_with_options path path_len opts out writable =
      guard writable
        (Db.open_with_options usize_max defaults scans txns batches api path path_len opts out)

  unfoldable pub regolith_db_open :
      InPointer → ℕ → Bool → Bool → Host Opened → Reply (Unit {0}) × Host Opened
  unfolding regolith_db_open_with_options
  regolith_db_open path path_len out writable =
      regolith_db_open_with_options path path_len none out writable

  unfoldable pub regolith_db_close : Bool → Host Desk → Reply (Unit {0}) × Host Desk
  regolith_db_close writable = guard writable (Db.close usize_max defaults scans txns batches api)

  unfoldable pub regolith_db_get_borrowed :
      InPointer → ℕ → Bool × Bool × Bool → Bool → Host Desk → Reply Lent × Host Desk
  regolith_db_get_borrowed key key_len outs writable =
      guard writable (Db.get_borrowed usize_max defaults scans txns batches api key key_len outs)

  unfoldable pub regolith_db_has : InPointer → ℕ → Bool → Bool → Host Desk → Reply ℕ × Host Desk
  regolith_db_has key key_len found writable =
      guard writable (Db.has usize_max defaults scans txns batches api key key_len found)

  unfoldable pub regolith_db_set :
      InPointer → ℕ → InPointer → ℕ → Bool → Host Desk → Reply (Unit {0}) × Host Desk
  regolith_db_set key key_len value value_len writable =
      guard writable (Db.set usize_max defaults scans txns batches api key key_len value value_len)

  unfoldable pub regolith_db_delete :
      InPointer → ℕ → Bool → Host Desk → Reply (Unit {0}) × Host Desk
  regolith_db_delete key key_len writable =
      guard writable (Db.delete usize_max defaults scans txns batches api key key_len)

  unfoldable pub regolith_db_write : InPointer → ℕ → Bool → Host Desk → Reply (Unit {0}) × Host Desk
  regolith_db_write ops ops_len writable =
      guard writable (Db.write usize_max defaults scans txns batches api ops ops_len)

  unfoldable pub regolith_db_drop_all : Bool → Host Desk → Reply (Unit {0}) × Host Desk
  regolith_db_drop_all writable =
      guard writable (Db.drop_all usize_max defaults scans txns batches api)

  unfoldable pub regolith_db_iter :
      Option RegolithIterOptions → Bool → Bool → Host Desk → Reply (RegolithIter scans) × Host Desk
  regolith_db_iter opts out writable =
      guard writable (Db.iter usize_max defaults scans txns batches api opts out)

  unfoldable pub regolith_db_txn :
      ℕ → Bool → Bool → Host Desk → Reply (TxnInner scans.Txn) × Host Desk
  regolith_db_txn readonly out writable =
      guard writable (Db.txn usize_max defaults scans txns batches api readonly out)
