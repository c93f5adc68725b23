-- ===== src/Go/Txn/Bodies.antt =====
-- What the bodies of ffi/src/txn.rs do through the handle of a live transaction, of an engine that keeps its
-- writes over what it found.
use go_regolith.Base.{
  All, ℕ, ◌⊎◌, ◌+◌, ◌≤◌, ◌≡◌, refl, ap, ◌∙◌, none, some, Bool, true, false, List, [], ◌∷◌, ◌++◌,
  ◌==◌, if◌then◌else◌, length, arith, Option,
}
use go_regolith.Failure.{
  Bytes, code, not_found, read_only_txn, conflict, busy, Result, ok, err, panic,
}
use go_regolith.Guard.{Heap, Lent, out_bool}
use go_regolith.Guard.Report.{IsOrdered}
use go_regolith.Batch.{RawOp, set, delete, batch_count_len, max_batch_record_len}
use go_regolith.Batch.Sizing.{Limits, IsTaken, record_len}
use go_regolith.Iter.Bounds.{RegolithIterOptions, bounds_from}
use go_regolith.Iter.Machine.{Scans, TxnInner, RegolithIter, live, over_txn, fresh, scan}
use go_regolith.Txn
use go_regolith.Txn.{Transactions, returned, transaction_error}
use go_regolith.Txn.Live.{with_live-live}
use go_regolith.Go.Store.{byte_ptr}
use go_regolith.Go.Finish.{in_bytes-byte_ptr}
use go_regolith.Go.Tidy.{Lends, out_borrowed-Lends}
use go_regolith.Go.Model.{Map, replayed, has_value}

module _ (scans : Scans) (api : Transactions scans.Txn) where
  -- The documented behaviour of an engine whose reads and writes do not fail: a transaction reads its own
  -- writes over what it found, and a commit applies them in their order, if it finds no conflict.
  pub record KeepsWrites : Type 0 where
    pub limits : Limits
    pub base : scans.Txn → Map
    pub writes : scans.Txn → List RawOp
    pub contents : api.Db → Map
    pub get_slice_is :
        (k : Bytes) (t : scans.Txn)
        → ((api.get_slice k t).0 ≡ returned (replayed (writes t) (base t) k))
          × (base (api.get_slice k t).1 ≡ base t)
          × (writes (api.get_slice k t).1 ≡ writes t)
    pub put_is :
        (k v : Bytes) (t : scans.Txn)
        → IsTaken limits (set k v)
        → batch_count_len + record_len (set k v ∷ []) ≤ max_batch_record_len
        → ((api.put k v t).0 ≡ returned tt)
          × (base (api.put k v t).1 ≡ base t)
          × (writes (api.put k v t).1 ≡ writes t ++ (set k v ∷ []))
    pub remove_is :
        (k : Bytes) (t : scans.Txn)
        → IsTaken limits (delete k)
        → batch_count_len + record_len (delete k ∷ []) ≤ max_batch_record_len
        → ((api.remove k t).0 ≡ returned tt)
          × (base (api.remove k t).1 ≡ base t)
          × (writes (api.remove k t).1 ≡ writes t ++ (delete k ∷ []))
    pub commit_is :
        (t : scans.Txn) (db : api.Db)
        → All (IsTaken limits) (writes t)
        → batch_count_len + record_len (writes t) ≤ max_batch_record_len
        → (((api.commit t db).0 ≡ returned tt)
            × (contents (api.commit t db).1 ≡ replayed (writes t) (contents db)))
          ⊎ ((((api.commit t db).0 ≡ transaction_error conflict)
                ⊎ ((api.commit t db).0 ≡ transaction_error busy))
              × (contents (api.commit t db).1 ≡ contents db))
    pub rollback_is : (t : scans.Txn) (db : api.Db) → contents (api.rollback t db) ≡ contents db

  abbrev pub Seat : Type 0
  Seat = Txn.Seat scans api

  abbrev pub seat : Option ℕ → (ℕ → TxnInner scans.Txn) → Heap Bytes → api.Db → Seat
  seat handle cells pins db = record { handle = handle; cells = cells; pins = pins; db = db }

  -- The cell of a transaction that is not resolved.
  abbrev pub alive : scans.Txn → Bool → TxnInner scans.Txn
  alive t readonly = record { txn = some t; poisoned = false; readonly = readonly }

  module _ (id : ℕ) (cells : ℕ → TxnInner scans.Txn) (pins : Heap Bytes) (db : api.Db)
      (t : scans.Txn) (ro : Bool) (cell : cells id ≡ alive t ro) where
    abbrev s : Seat
    s = seat (some id) cells pins db

    abbrev pub held : scans.Txn → ℕ → TxnInner scans.Txn
    held t' i = if i == id then record (cells id) { txn = some t' } else cells i

    pub held-alive : (t' : scans.Txn) → held t' id ≡ alive t' ro
    held-alive t' =
        let same : (id == id) ≡ true = ground arith in
        let put : TxnInner scans.Txn → TxnInner scans.Txn = λ c. record c { txn = some t' } in
        rw same (ap put cell)

    with_cell :
        {A : Type 0} (body : scans.Txn → Txn.Call A × scans.Txn)
        → Txn.with_live scans api id body s
          ≡ (Txn.asked (body t).0, seat (some id) (held (body t).1) pins db)
    unfolding Txn.hold
    with_cell body =
        with_live-live scans api id t s body (ap (λ c. c.txn) cell) (ap (λ c. c.poisoned) cell)

    abbrev get_call : Bytes → Result Lent × Seat
    get_call k = Txn.get_borrowed scans api (byte_ptr k) (length k) (true, true, true) s

    pub get_none :
        (k : Bytes)
        → (api.get_slice k t).0 ≡ returned none
        → get_call k ≡ (err (code not_found), seat (some id) (held (api.get_slice k t).1) pins db)
    unfolding Txn.get_borrowed Txn.on_txn Txn.asked
    get_none k e = rw (in_bytes-byte_ptr k, with_cell (api.get_slice k), e) refl

    pub get_value :
        (k v : Bytes)
        → IsOrdered pins
        → (api.get_slice k t).0 ≡ returned (some v)
        → (lent : Lent) × (pins' : Heap Bytes) × (get_call k
            ≡ (ok lent, seat (some id) (held (api.get_slice k t).1) pins' db))
          × Lends pins v lent pins'
    unfolding Txn.get_borrowed Txn.on_txn Txn.asked Txn.lend
    get_value k v o e =
        let (lent, pins', q, l) = out_borrowed-Lends v pins o in
        (
          lent,
          pins',
          rw (in_bytes-byte_ptr k, with_cell (api.get_slice k), e)
              (ap (λ r. (r.0, seat (some id) (held (api.get_slice k t).1) r.1 db)) q),
          l,
        )

    out_bool-is :
        (o : Option Bytes)
        → out_bool (Txn.is_some scans api o) true ≡ ok (if has_value o then 1 else 0)
    unfolding out_bool
    out_bool-is none = refl
    out_bool-is (some v) = refl

    pub has_body :
        (k : Bytes) (o : Option Bytes)
        → (api.get_slice k t).0 ≡ returned o
        → Txn.has scans api (byte_ptr k) (length k) true s
          ≡ (ok (if has_value o then 1 else 0), seat (some id) (held (api.get_slice k t).1) pins db)
    unfolding Txn.has Txn.on_txn Txn.asked
    has_body k o e =
        rw (in_bytes-byte_ptr k, with_cell (api.get_slice k), e)
          (ap (λ r. (r, seat (some id) (held (api.get_slice k t).1) pins db)) (out_bool-is o))

    writable-is :
        (b : Bool)
        → ro ≡ b
        → Txn.writable scans api id s ≡ (if b then (err (code read_only_txn), s) else (ok tt, s))
    unfolding Txn.writable
    writable-is b e = rw (ap (λ c. c.readonly) cell ∙ e) refl

    pub set_refused :
        (k v : Bytes)
        → ro ≡ true
        → Txn.set scans api (byte_ptr k) (length k) (byte_ptr v) (length v) s
          ≡ (err (code read_only_txn), s)
    unfolding Txn.set Txn.on_txn
    set_refused k v e = rw (writable-is true e) refl

    pub delete_refused :
        (k : Bytes)
        → ro ≡ true
        → Txn.delete scans api (byte_ptr k) (length k) s ≡ (err (code read_only_txn), s)
    unfolding Txn.delete Txn.on_txn
    delete_refused k e = rw (writable-is true e) refl

    pub set_body :
        (k v : Bytes)
        → ro ≡ false
        → (api.put k v t).0 ≡ returned tt
        → Txn.set scans api (byte_ptr k) (length k) (byte_ptr v) (length v) s
          ≡ (ok tt, seat (some id) (held (api.put k v t).1) pins db)
    unfolding Txn.set Txn.on_txn Txn.asked
    set_body k v e p =
        rw
          (
            writable-is false e,
            in_bytes-byte_ptr k,
            in_bytes-byte_ptr v,
            with_cell (api.put k v),
            p,
          )
          refl

    pub delete_body :
        (k : Bytes)
        → ro ≡ false
        → (api.remove k t).0 ≡ returned tt
        → Txn.delete scans api (byte_ptr k) (length k) s
          ≡ (ok tt, seat (some id) (held (api.remove k t).1) pins db)
    unfolding Txn.delete Txn.on_txn Txn.asked
    delete_body k e p =
        rw (writable-is false e, in_bytes-byte_ptr k, with_cell (api.remove k), p) refl

    pub iter_body :
        (opts : Option RegolithIterOptions)
        → (it : RegolithIter scans) × (Txn.iter scans api opts true s ≡ (ok it, s))
    unfolding Txn.iter Txn.on_txn over_txn live
    iter_body opts = (fresh scans (bounds_from opts) (scan id none none), rw cell refl)

    -- What is left of the cells when the transaction has been taken.
    abbrev pub taken : ℕ → TxnInner scans.Txn
    taken i = if i == id then record (cells id) { txn = none } else cells i

    take_body : Txn.take scans api id (seat none cells pins db) ≡ (ok t, seat none taken pins db)
    unfolding Txn.take Txn.hold
    take_body = rw (ap (λ c. c.poisoned) cell, Txn.take, ap (λ c. c.txn) cell) refl

    pub commit_body :
        Txn.commit scans api s
        ≡ (Txn.asked (api.commit t db).0, seat none taken pins (api.commit t db).1)
    unfolding Txn.commit Txn.on_txn Txn.unbox Txn.asked
    commit_body = rw take_body refl

    pub free_body : Txn.free_txn scans api s ≡ (ok tt, seat none taken pins (api.rollback t db))
    unfolding Txn.free_txn Txn.on_txn Txn.unbox Txn.roll_back
    free_body =
        let freed : Result scans.Txn × Seat → Result (Unit {0}) × Seat = λ r. elim r.0 [
          | ok t' ↦ (ok tt, Txn.roll_back scans api t' r.1)
          | err f ↦ (ok tt, r.1)
          | panic p ↦ (panic p, r.1)
        ] in
        ap freed take_body
