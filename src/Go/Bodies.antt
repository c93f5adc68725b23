-- ===== src/Go/Bodies.antt =====
-- What the bodies of ffi/src/db.rs do to an open store, of an engine that keeps a map.
use go_regolith.Base.{
  ℕ, ◌+◌, ◌≤◌, ◌<◌, ◌≡◌, refl, ap, ◌∙◌, none, some, Bool, true, false, List, [], ◌∷◌, if◌then◌else◌,
  length, All,
}
use go_regolith.Failure.{Bytes, code, not_found, invalid_arg, ok, err}
use go_regolith.Guard.{Heap, Lent, out_bool}
use go_regolith.Guard.Report.{IsOrdered}
use go_regolith.Batch.{
  WriteBatch, RawOp, set, delete, batch_count_len, max_batch_record_len, past_limit, u64_max,
}
use go_regolith.Batch.Pack.{pack, new_write_batch}
use go_regolith.Batch.Sizing.{Limits, IsTaken, record_len}
use go_regolith.Batch.Frames.{IsAddressable}
use go_regolith.Batch.Decode.{build, decode-pack, decode-pack_over}
use go_regolith.Options.{ResolvedOptions}
use go_regolith.Iter.Machine.{Scans}
use go_regolith.Txn.{Transactions, returned, asked}
use go_regolith.Db
use go_regolith.Db.{Databases}
use go_regolith.Go.Store.{byte_ptr}
use go_regolith.Go.Finish.{in_bytes-byte_ptr}
use go_regolith.Go.Tidy.{Lends, out_borrowed-Lends}
use go_regolith.Go.Model.{Map, updated, replayed, has_value}

module _ {Others : Type 0} (usize_max : ℕ) (defaults : ResolvedOptions Others) (scans : Scans)
    (txns : Transactions scans.Txn) (batches : WriteBatch)
    (api : Databases scans txns batches Others) where
  -- The documented behaviour of an engine without I/O failures: a store holds a map. A put is taken whose
  -- key and value are within the sizes that the engine takes and whose log record is within its limit, and
  -- so is a batch, which is applied in its order.
  pub record KeepsMap : Type 0 where
    pub limits : Limits
    pub contents : txns.Db → Map
    pub get_slice_is : (k : Bytes) (db : txns.Db) → api.get_slice k db ≡ returned (contents db k)
    pub has_is : (k : Bytes) (db : txns.Db) → api.has k db ≡ returned (has_value (contents db k))
    pub put_is :
        (k v : Bytes) (db : txns.Db)
        → IsTaken limits (set k v)
        → batch_count_len + record_len (set k v ∷ []) ≤ max_batch_record_len
        → ((api.put k v db).0 ≡ returned tt)
          × (contents (api.put k v db).1 ≡ updated k (some v) (contents db))
    pub remove_is :
        (k : Bytes) (db : txns.Db)
        → IsTaken limits (delete k)
        → batch_count_len + record_len (delete k ∷ []) ≤ max_batch_record_len
        → ((api.remove k db).0 ≡ returned tt)
          × (contents (api.remove k db).1 ≡ updated k none (contents db))
    pub write_is :
        (ops : List RawOp) (db : txns.Db)
        → All (IsTaken limits) ops
        → batch_count_len + record_len ops ≤ max_batch_record_len
        → ((api.write (build batches ops batches.new) db).0 ≡ returned tt)
          × (contents (api.write (build batches ops batches.new) db).1 ≡ replayed ops (contents db))
    pub drop_all_is :
        (db : txns.Db)
        → ((api.drop_all db).0 ≡ returned tt) × (contents (api.drop_all db).1 ≡ λ q. none)
    pub close_is : (db : txns.Db) (disk : api.Disk) → (api.close db disk).0 ≡ returned tt

  abbrev pub Desk : Type 0
  Desk = Db.Desk usize_max defaults scans txns batches api

  out_bool-true : (b : Bool) → out_bool b true ≡ ok (if b then 1 else 0)
  unfolding out_bool
  out_bool-true true = refl
  out_bool-true false = refl

  -- The desk of an open store.
  abbrev pub desk : txns.Db → Heap Bytes → api.Disk → Desk
  desk db pins disk = record { handle = some db; pins = pins; disk = disk }

  module _ (laws : KeepsMap) (db : txns.Db) (pins : Heap Bytes) (disk : api.Disk) where
    pub get_none :
        (k : Bytes)
        → laws.contents db k ≡ none
        → Db.get_borrowed usize_max defaults scans txns batches api
            (byte_ptr k)
            (length k)
            (true, true, true)
            (desk db pins disk)
          ≡ (err (code not_found), desk db pins disk)
    unfolding Db.get_borrowed Db.on_db
    get_none k e = rw (in_bytes-byte_ptr k, laws.get_slice_is k db, e) refl

    get_some :
        (k v : Bytes)
        → laws.contents db k ≡ some v
        → Db.get_borrowed usize_max defaults scans txns batches api
            (byte_ptr k)
            (length k)
            (true, true, true)
            (desk db pins disk)
          ≡ Db.lend usize_max defaults scans txns batches api v
              (true, true, true)
              (desk db pins disk)
    unfolding Db.get_borrowed Db.on_db asked
    get_some k v e = rw (in_bytes-byte_ptr k, laws.get_slice_is k db, e)

    lend_lem :
        (v : Bytes)
        → IsOrdered pins
        → (lent : Lent) × (pins' : Heap Bytes) × (Db.lend usize_max defaults scans txns batches api
              v
              (true, true, true)
              (desk db pins disk)
            ≡ (ok lent, desk db pins' disk))
          × Lends pins v lent pins'
    unfolding Db.lend
    lend_lem v o =
        let (lent, pins', q, l) = out_borrowed-Lends v pins o in
        (lent, pins', ap (λ r. (r.0, desk db r.1 disk)) q, l)

    pub get_value :
        (k v : Bytes)
        → IsOrdered pins
        → laws.contents db k ≡ some v
        → (lent : Lent) × (pins' : Heap Bytes) × (Db.get_borrowed usize_max defaults scans txns
              batches api
              (byte_ptr k)
              (length k)
              (true, true, true)
              (desk db pins disk)
            ≡ (ok lent, desk db pins' disk))
          × Lends pins v lent pins'
    get_value k v o e =
        let (lent, pins', q, l) = lend_lem v o in (lent, pins', get_some k v e ∙ q, l)

    pub has_body :
        (k : Bytes)
        → Db.has usize_max defaults scans txns batches api
            (byte_ptr k)
            (length k)
            true
            (desk db pins disk)
          ≡ (ok (if has_value (laws.contents db k) then 1 else 0), desk db pins disk)
    unfolding Db.has Db.on_db asked
    has_body k =
        rw (in_bytes-byte_ptr k, laws.has_is k db)
          (ap (λ r. (r, desk db pins disk)) (out_bool-true (has_value (laws.contents db k))))

    pub set_body :
        (k v : Bytes)
        → IsTaken laws.limits (set k v)
        → batch_count_len + record_len (set k v ∷ []) ≤ max_batch_record_len
        → Db.set usize_max defaults scans txns batches api
            (byte_ptr k)
            (length k)
            (byte_ptr v)
            (length v)
            (desk db pins disk)
          ≡ (ok tt, desk (api.put k v db).1 pins disk)
    unfolding Db.set Db.on_db Db.changed asked
    set_body k v taken h =
        rw (in_bytes-byte_ptr k, in_bytes-byte_ptr v, (laws.put_is k v db taken h).0)

    pub delete_body :
        (k : Bytes)
        → IsTaken laws.limits (delete k)
        → batch_count_len + record_len (delete k ∷ []) ≤ max_batch_record_len
        → Db.delete usize_max defaults scans txns batches api
            (byte_ptr k)
            (length k)
            (desk db pins disk)
          ≡ (ok tt, desk (api.remove k db).1 pins disk)
    unfolding Db.delete Db.on_db Db.changed asked
    delete_body k taken h = rw (in_bytes-byte_ptr k, (laws.remove_is k db taken h).0)

    pub drop_all_body :
        Db.drop_all usize_max defaults scans txns batches api (desk db pins disk)
        ≡ (ok tt, desk (api.drop_all db).1 pins disk)
    unfolding Db.drop_all Db.on_db Db.changed asked
    drop_all_body = rw ((laws.drop_all_is db).0)

    pub close_body :
        Db.close usize_max defaults scans txns batches api (desk db pins disk)
        ≡ (ok tt, record { handle = none; pins = pins; disk = (api.close db disk).1 })
    unfolding Db.close Db.on_db asked
    close_body = rw (laws.close_is db disk)

    abbrev buf : List RawOp → Bytes
    buf ops = (pack new_write_batch ops).buf

    pub write_body :
        (ops : List RawOp)
        → usize_max ≤ u64_max
        → All (IsAddressable usize_max) ops
        → All (IsTaken laws.limits) ops
        → batch_count_len + record_len ops ≤ max_batch_record_len
        → Db.write usize_max defaults scans txns batches api
            (byte_ptr (buf ops))
            (length (buf ops))
            (desk db pins disk)
          ≡ (ok tt, desk (api.write (build batches ops batches.new) db).1 pins disk)
    unfolding Db.write Db.on_db Db.changed asked
    write_body ops u a taken h = rw (
      in_bytes-byte_ptr (buf ops),
      decode-pack usize_max batches ops u a h,
      (laws.write_is ops db taken h).0,
    )

    pub write_refused :
        (ops : List RawOp)
        → usize_max ≤ u64_max
        → All (IsAddressable usize_max) ops
        → max_batch_record_len < batch_count_len + record_len ops
        → (j : ℕ) × (Db.write usize_max defaults scans txns batches api
              (byte_ptr (buf ops))
              (length (buf ops))
              (desk db pins disk)
            ≡ (err (invalid_arg (past_limit j)), desk db pins disk))
    unfolding Db.write Db.on_db
    write_refused ops u a h =
        let (j, c, e) = decode-pack_over usize_max batches ops u a h in
        (j, rw (in_bytes-byte_ptr (buf ops), e))
