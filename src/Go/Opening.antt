-- ===== src/Go/Opening.antt =====
-- regolith.go: `Open` and `OpenWith`.
pub mod Asks
pub mod Refuses
pub mod Session
pub mod Runs
use go_regolith.Base.{ℕ, ◌⊎◌, inl, inr, Option, none, some, true, false, length}
use go_regolith.Failure.{Bytes}
use go_regolith.Guard.{Heap, Host}
use go_regolith.Batch.{WriteBatch}
use go_regolith.Options.{RegolithOptions, ResolvedOptions}
use go_regolith.Options.Go.{GoOptions, to_c}
use go_regolith.Iter.Machine.{Scans}
use go_regolith.Txn.{Transactions}
use go_regolith.Db.{Databases}
use go_regolith.Db.Calls.{regolith_db_open_with_options}
use go_regolith.Go.Errors.{GoError}
use go_regolith.Go.Store.{finish, byte_ptr, GoDb}

-- `Options{}`
abbrev pub zero_options : GoOptions
zero_options = record {
  write_buffer_size = none;
  block_cache_size = none;
  max_background_compactions = none;
  transaction_keys_inline = none;
  compression = 0;
  durability = 0;
  isolation = 0;
}

module _ {Others : Type 0} (usize_max : ℕ) (defaults : ResolvedOptions Others) (scans : Scans)
    (txns : Transactions scans.Txn) (batches : WriteBatch)
    (api : Databases scans txns batches Others) where
  -- What a process has before it opens a store, and when the opening has failed.
  pub record World : Type 0 where
    pub errors : Heap Bytes
    pub pins : Heap Bytes
    pub disk : api.Disk

  abbrev pub Opened : Type 0
  Opened = (GoError × World) ⊎ GoDb usize_max defaults scans txns batches api

  -- The two returns behind the call.
  abbrev pub handed : Heap Bytes → Option GoError → Host (Option txns.Db × api.Disk) → Opened
  handed pins (some e) host =
      inl (e, record { errors = host.errors; pins = pins; disk = host.inner.1 })
  handed pins none host = inr (record {
    closed = false;
    host = record {
      errors = host.errors;
      inner = record { handle = host.inner.0; pins = pins; disk = host.inner.1 };
    };
  })

  abbrev pub call_open : Bytes → RegolithOptions → World → Opened
  call_open path c w =
      let ((out, e), host) = finish (
        regolith_db_open_with_options usize_max defaults scans txns batches api (byte_ptr path)
          (length path) (some c) true true
          (record { errors = w.errors; inner = (none, w.disk) })) in
      handed w.pins e host

  unfoldable pub open_with : Bytes → GoOptions → World → Opened
  open_with path opts w = elim (to_c opts) [ inl e ↦ inl (e, w) | inr c ↦ call_open path c w ]

  unfoldable pub open_path : Bytes → World → Opened
  unfolding open_with
  open_path path w = open_with path zero_options w
