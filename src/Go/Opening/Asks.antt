-- ===== src/Go/Opening/Asks.antt =====
-- What the engine is asked for by `OpenWith`, and what its answer becomes.
use mathlib.Core.Path.{subst}
use go_regolith.Base.{
  ap, sym, ◌⊎◌, ◌≢◌, inl, inr, false, ℕ, ◌≡◌, refl, ◌∙◌, Option, none, some, true, length,
}
use go_regolith.Failure.{
  Bytes, Result, ok, err, panic, closed, invalid, failed, conflict, busy, unsupported_range_delete,
  no_savepoint, io,
}
use go_regolith.Guard.{Heap, guard}
use go_regolith.Guard.Report.{IsOrdered}
use go_regolith.Batch.{WriteBatch}
use go_regolith.Options.{ResolvedOptions, options_from}
use go_regolith.Options.Settings.{Settings, in_go, applied, IsHeld}
use go_regolith.Options.RoundTrip.{options_from-to_c}
use go_regolith.Iter.Machine.{Scans}
use go_regolith.Txn.{Transactions, Call, returned, engine_error, transaction_error, unwound, asked}
use go_regolith.Db
use go_regolith.Db.{Databases}
use go_regolith.Db.Utf8.{from_utf8}
use go_regolith.Db.Calls.{regolith_db_open_with_options}
use go_regolith.Go.Errors.{GoError, error_of, classify, SameCells}
use go_regolith.Go.Store.{finish, byte_ptr}
use go_regolith.Go.Finish.{finish-guard, out_of, in_bytes-byte_ptr}
use go_regolith.Go.Opening
use go_regolith.Go.Opening.{World}

module _ {Others : Type 0} (usize_max : ℕ) (defaults : ResolvedOptions Others) (scans : Scans)
    (txns : Transactions scans.Txn) (batches : WriteBatch)
    (api : Databases scans txns batches Others) where
  abbrev Worlds : Type 0
  Worlds = World usize_max defaults scans txns batches api

  module _ (path : Bytes) (s : Settings) (w : Worlds) where
    -- The engine is asked once, for the path, with the settings over the defaults.
    abbrev pub answer : Call txns.Db × api.Disk
    answer = api.open_store path (applied s defaults).engine w.disk

    abbrev pub levelled : Result txns.Db → Option txns.Db
    levelled (ok db) = some (api.with_isolation (applied s defaults).isolation db)
    levelled (err f) = none
    levelled (panic p) = none

    abbrev quiet : {A : Type 0} → Result A → Result (Unit {0})
    quiet (ok a) = ok tt
    quiet (err f) = err f
    quiet (panic p) = panic p

    opened_lem :
        (r : Call txns.Db) (disk : api.Disk)
        → Db.opened usize_max defaults scans txns batches api
            (applied s defaults).isolation
            (r, disk)
            (none, w.disk)
          ≡ (quiet (asked r), (levelled (asked r), disk))
    unfolding Db.opened asked
    opened_lem (returned db) disk = refl
    opened_lem (engine_error e) disk = refl
    opened_lem (transaction_error e) disk = refl
    opened_lem (unwound p) disk = refl

    body_lem :
        (c : _)
        → from_utf8 path ≡ some path
        → options_from usize_max defaults (some c) ≡ ok (applied s defaults)
        → Db.open_with_options usize_max defaults scans txns batches api
            (byte_ptr path)
            (length path)
            (some c)
            true
            (none, w.disk)
          ≡ (quiet (asked answer.0), (levelled (asked answer.0), answer.1))
    unfolding Db.open_with_options
    body_lem c u o = rw (in_bytes-byte_ptr path, u, o) (opened_lem answer.0 answer.1)

    error_of-quiet : {A : Type 0} (r : Result A) → error_of (quiet r) ≡ error_of r
    unfolding error_of
    error_of-quiet (ok a) = refl
    error_of-quiet (err f) = refl
    error_of-quiet (panic p) = refl

    -- In the words of `OpenWith`'s own returns.
    pub open_with-handed :
        IsOrdered w.errors
        → from_utf8 path ≡ some path
        → IsHeld usize_max s
        → (errors : Heap Bytes) × (Opening.open_with usize_max defaults scans txns batches api path
              (in_go s)
              w
            ≡ Opening.handed usize_max defaults scans txns batches api w.pins
                (error_of (asked answer.0))
                (record { errors = errors; inner = (levelled (asked answer.0), answer.1) }))
          × SameCells w.errors errors
          × IsOrdered errors
    unfolding Opening.open_with regolith_db_open_with_options
    open_with-handed o u h =
        let (c, filled, resolved) = options_from-to_c usize_max defaults s h in
        let body =
          Db.open_with_options usize_max defaults scans txns batches api (byte_ptr path)
            (length path) (some c) true in
        let (errors, q, same, ordered) =
          finish-guard body (record { errors = w.errors; inner = (none, w.disk) }) o in
        let q' : finish (guard true body (record { errors = w.errors; inner = (none, w.disk) })) ≡ (
          (out_of (quiet (asked answer.0)), error_of (asked answer.0)),
          record { errors = errors; inner = (levelled (asked answer.0), answer.1) },
        ) =
          q ∙ rw (body_lem c u resolved, error_of-quiet (asked answer.0)) refl in
        (errors, rw (Opening.open_with, filled) (rw q' refl), same, ordered)

    -- What a caller of `OpenWith` is to get of the engine's answer, `errors` being the error objects after it.
    abbrev pub Gives :
        Heap Bytes → Opening.Opened usize_max defaults scans txns batches api → Type 0
    Gives errors opened =
        ((db : txns.Db) × (answer.0 ≡ returned db)
          × (opened
              ≡ inr (record {
                closed = false;
                host = record {
                  errors = errors;
                  inner = record {
                    handle = some (api.with_isolation (applied s defaults).isolation db);
                    pins = w.pins;
                    disk = answer.1;
                  };
                };
              })))
        ⊎ ((e : GoError) × ((db : txns.Db) → answer.0 ≢ returned db)
            × (error_of (asked answer.0) ≡ some e)
            × (opened ≡ inl (e, record { errors = errors; pins = w.pins; disk = answer.1 })))

    refused-Gives :
        (errors : Heap Bytes) (r : Call txns.Db) (e : GoError)
        → answer.0 ≡ r
        → ((db : txns.Db) → r ≢ returned db)
        → error_of (asked r) ≡ some e
        → Gives errors (
            Opening.handed usize_max defaults scans txns batches api w.pins
              (error_of (asked answer.0))
              (record { errors = errors; inner = (levelled (asked answer.0), answer.1) }))
    refused-Gives errors r e q n told =
        let why : error_of (asked answer.0) ≡ some e = ap (λ z. error_of (asked z)) q ∙ told in
        inr (
          e,
          (λ db h. n db (sym q ∙ h)),
          why,
          ap
              (λ o.
                Opening.handed usize_max defaults scans txns batches api w.pins o
                  (record { errors = errors; inner = (levelled (asked answer.0), answer.1) }))
              why,
        )

    handed-Gives :
        (errors : Heap Bytes) (r : Call txns.Db)
        → answer.0 ≡ r
        → Gives errors (
            Opening.handed usize_max defaults scans txns batches api w.pins
              (error_of (asked answer.0))
              (record { errors = errors; inner = (levelled (asked answer.0), answer.1) }))
    unfolding asked error_of classify
    handed-Gives errors (returned db) q = inl (db, q, rw q refl)
    handed-Gives errors (engine_error closed) q =
        refused-Gives errors (engine_error closed) _ q (λ db h. cc) refl
    handed-Gives errors (engine_error (invalid x)) q =
        refused-Gives errors (engine_error (invalid x)) _ q (λ db h. cc) refl
    handed-Gives errors (engine_error (failed x)) q =
        refused-Gives errors (engine_error (failed x)) _ q (λ db h. cc) refl
    handed-Gives errors (transaction_error conflict) q =
        refused-Gives errors (transaction_error conflict) _ q (λ db h. cc) refl
    handed-Gives errors (transaction_error busy) q =
        refused-Gives errors (transaction_error busy) _ q (λ db h. cc) refl
    handed-Gives errors (transaction_error (unsupported_range_delete x)) q =
        refused-Gives errors (transaction_error (unsupported_range_delete x)) _ q (λ db h. cc) refl
    handed-Gives errors (transaction_error (no_savepoint x)) q =
        refused-Gives errors (transaction_error (no_savepoint x)) _ q (λ db h. cc) refl
    handed-Gives errors (transaction_error (io x)) q =
        refused-Gives errors (transaction_error (io x)) _ q (λ db h. cc) refl
    handed-Gives errors (unwound p) q = refused-Gives errors (unwound p) _ q (λ db h. cc) refl

    -- `OpenWith` on a path of UTF-8, with settings whose numbers are within the platform's usize, where no
    -- error object is numbered from the heap's next number on: the engine is asked once, for that path, with
    -- each setting that is made over the defaults. If it returns a store, the caller gets an open handle on
    -- it, at the level of the settings; if not, whatever it fails with, the error of that, and no handle.
    -- No error object is left behind.
    pub open_with-in_go :
        IsOrdered w.errors
        → from_utf8 path ≡ some path
        → IsHeld usize_max s
        → (errors : Heap Bytes) × Gives errors
            (Opening.open_with usize_max defaults scans txns batches api path (in_go s) w)
          × SameCells w.errors errors
          × IsOrdered errors
    open_with-in_go o u h =
        let (errors, q, same, ordered) = open_with-handed o u h in
        (errors, subst (Gives errors) (sym q) (handed-Gives errors answer.0 refl), same, ordered)
