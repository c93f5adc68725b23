-- ===== src/Go/Handles/Begun.antt =====
-- `NewTxn` of `DB`: the transaction that the engine begins, and its level.
use go_regolith.Base.{ℕ, ◌≡◌, refl, ap, ◌∙◌, none, some, Bool, true, false, inr}
use go_regolith.Failure.{Bytes, ok}
use go_regolith.Guard.{Heap}
use go_regolith.Guard.Report.{IsOrdered}
use go_regolith.Batch.{WriteBatch}
use go_regolith.Options.{ResolvedOptions, IsolationLevel}
use go_regolith.Options.Settings.{Settings, in_go, applied, over, IsHeld}
use go_regolith.Iter.Machine.{Scans, TxnInner}
use go_regolith.Txn.{Transactions, returned, asked}
use go_regolith.Db
use go_regolith.Db.{Databases}
use go_regolith.Db.Utf8.{from_utf8}
use go_regolith.Db.Calls.{regolith_db_txn}
use go_regolith.Go.Errors.{SameCells, error_of, classify}
use go_regolith.Go.Store.{GoDb}
use go_regolith.Go.Finish.{finish-ok}
use go_regolith.Go.Perform
use go_regolith.Go.Opening
use go_regolith.Go.Opening.{World}
use go_regolith.Go.Opening.Asks.{open_with-handed}
use go_regolith.Go.Ranges.{c_bool}
use go_regolith.Go.Ranges.Copied.{c_bool_lem}
use go_regolith.Go.Handles

module _ {Others : Type 0} (usize_max : ℕ) (defaults : ResolvedOptions Others) (scans : Scans)
    (txns : Transactions scans.Txn) (batches : WriteBatch)
    (api : Databases scans txns batches Others) where
  abbrev Handle : Type 0
  Handle = GoDb usize_max defaults scans txns batches api

  -- A live transaction of the engine, for the caller's choice of reading only.
  abbrev pub live_txn : scans.Txn → Bool → TxnInner scans.Txn
  live_txn t read_only = record { txn = some t; poisoned = false; readonly = read_only }

  module _ (read_only : Bool) (db : txns.Db) (errors pins : Heap Bytes) (disk : api.Disk) where
    abbrev began : scans.Txn × txns.Db
    began = api.begin_transaction_owned (api.isolation db) db

    body_lem :
        Db.txn usize_max defaults scans txns batches api
          (c_bool read_only)
          true
          (record { handle = some db; pins = pins; disk = disk })
        ≡ (
          ok (live_txn began.0 read_only),
          record { handle = some began.1; pins = pins; disk = disk },
        )
    unfolding Db.txn Db.on_db
    body_lem = rw (c_bool_lem read_only) refl

    pub new_txn_lem :
        IsOrdered errors
        → (errors' : Heap Bytes) × (Handles.new_txn usize_max defaults scans txns batches api
              read_only
              (Perform.opened usize_max defaults scans txns batches api db errors pins disk)
            ≡ (
              (some (live_txn began.0 read_only), none),
              Perform.opened usize_max defaults scans txns batches api began.1 errors' pins disk,
            ))
          × SameCells errors errors'
          × IsOrdered errors'
    unfolding Handles.new_txn regolith_db_txn
    new_txn_lem o =
        let (errors', q, same, ordered) =
          finish-ok (Db.txn usize_max defaults scans txns batches api (c_bool read_only) true)
            (record {
              errors = errors;
              inner = record { handle = some db; pins = pins; disk = disk };
            })
            _ _ o body_lem in
        (errors', rw q refl, same, ordered)

  -- A store after `OpenWith`: on a path of UTF-8, with settings whose numbers the platform's usize holds, which
  -- the engine opens, where the engine keeps the level that it is given and no error object is numbered
  -- from its heap's next number on. `NewTxn` on it gives the live transaction that the engine begins at
  -- the level of the settings, or at the default level if they set none, and it is read-only exactly if
  -- the caller asked for that.
  pub new_txn-open_with :
      (path : Bytes) (s : Settings) (w : World usize_max defaults scans txns batches api)
      (read_only : Bool) (db : txns.Db)
      → ((level : IsolationLevel) (d : txns.Db)
          → api.isolation (api.with_isolation level d) ≡ level)
      → IsOrdered w.errors
      → from_utf8 path ≡ some path
      → IsHeld usize_max s
      → (api.open_store path (applied s defaults).engine w.disk).0 ≡ returned db
      → (g : Handle) × (Opening.open_with usize_max defaults scans txns batches api path (in_go s) w
          ≡ inr g)
        × ((Handles.new_txn usize_max defaults scans txns batches api read_only g).0 ≡ (
          some (
              live_txn
                (api.begin_transaction_owned
                  (over s.isolation defaults.isolation)
                  (api.with_isolation (over s.isolation defaults.isolation) db)).0
                read_only),
          none,
        ))
  unfolding applied error_of classify asked
  new_txn-open_with path s w read_only db levels o u h answer =
      let level = over s.isolation defaults.isolation in
      let leveled = api.with_isolation level db in
      let disk = (api.open_store path (applied s defaults).engine w.disk).1 in
      let (errors, q, same, ordered) =
        open_with-handed usize_max defaults scans txns batches api path s w o u h in
      let (errors', r, same', ordered') =
        new_txn_lem read_only leveled errors w.pins disk ordered in
      (
        Perform.opened usize_max defaults scans txns batches api leveled errors w.pins disk,
        q ∙ rw answer refl,
        ap (λ x. x.0) r
            ∙ ap (λ l. (some (live_txn (api.begin_transaction_owned l leveled).0 read_only), none))
                (levels level db),
      )
