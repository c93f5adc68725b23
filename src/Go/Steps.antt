-- ===== src/Go/Steps.antt =====
-- One request on an open store, through Go, the C ABI and the engine, against Go/Model.
use go_regolith.Base.{
  ℕ, ◌⊎◌, ◌+◌, ◌≤◌, ◌<◌, ◌≡◌, refl, sym, ap, ◌∙◌, inl, inr, Option-cases, Option, none, some, Bool,
  true, false, not, List, [], ◌∷◌, ◌==◌, if◌then◌else◌, length, arith,
}
use go_regolith.Failure.{Bytes, code, not_found, invalid_arg, Failure, ok, err}
use go_regolith.Exec.{Exec}
use go_regolith.Guard.{Heap, Host, Lent, guard}
use go_regolith.Batch.{
  WriteBatch, RawOp, past_limit, batch_count_len, max_batch_record_len, u64_max,
}
use go_regolith.Batch.Pack.{pack, new_write_batch, n-pack}
use go_regolith.Batch.Sizing.{record_len}
use go_regolith.Options.{ResolvedOptions}
use go_regolith.Iter.Machine.{Scans}
use go_regolith.Txn.{Transactions}
use go_regolith.Db
use go_regolith.Db.{Databases}
use go_regolith.Db.Calls.{
  regolith_db_close, regolith_db_get_borrowed, regolith_db_has, regolith_db_set, regolith_db_delete,
  regolith_db_write, regolith_db_drop_all,
}
use go_regolith.Go.Errors.{GoError, err_not_found, err_invalid_argument, error_of, classify}
use go_regolith.Go.Store
use go_regolith.Go.Store.{finish, byte_ptr, GoDb}
use go_regolith.Go.Tidy.{finish-Tidy, Lends-Tidy}
use go_regolith.Go.Bodies
use go_regolith.Go.Bodies.{KeepsMap}
use go_regolith.Go.Model.{
  Request, get, has, put, remove, write, drop_all, close, Answer, value, found, done, failed, Map,
  has_value, replayed, Model, model, IsServable,
}
use go_regolith.Go.Perform.{as_value, as_found, as_done}
use go_regolith.Go.Perform
use go_regolith.Go.Perform.{is_opened, is_closed}

module _ {Others : Type 0} (usize_max : ℕ) (defaults : ResolvedOptions Others) (scans : Scans)
    (txns : Transactions scans.Txn) (batches : WriteBatch)
    (api : Databases scans txns batches Others)
    (laws : KeepsMap usize_max defaults scans txns batches api) (e₀ p₀ : Heap Bytes) where
  abbrev pub Handle : Type 0
  Handle = GoDb usize_max defaults scans txns batches api

  abbrev Desk : Type 0
  Desk = Db.Desk usize_max defaults scans txns batches api

  abbrev pub Tidy : Heap Bytes → Heap Bytes → Type 0
  Tidy = Perform.Tidy usize_max defaults scans txns batches api laws e₀ p₀

  abbrev pub Stands : Handle → Model → Type 0
  Stands = Perform.Stands usize_max defaults scans txns batches api laws e₀ p₀

  abbrev pub perform : Request → Handle → Answer × Handle
  perform = Perform.perform usize_max defaults scans txns batches api

  module _ (db : txns.Db) (errors pins : Heap Bytes) (disk : api.Disk) (t : Tidy errors pins) where
    abbrev desk : Desk
    desk = Bodies.desk usize_max defaults scans txns batches api db pins disk

    abbrev host : Host (Desk)
    host = record { errors = errors; inner = desk }

    -- A body that succeeds, as a Go method sees it.
    finish_ok :
        {A : Type 0} (body : Exec (Desk) A) (a : A) (d : Desk)
        → body desk ≡ (ok a, d)
        → (errors' : Heap Bytes) × (finish (guard true body host)
            ≡ ((some a, none), record { errors = errors'; inner = d }))
          × Tidy errors' pins
    unfolding error_of classify
    finish_ok body a d e = finish-Tidy t body desk d (ok a) e

    -- A body that fails.
    finish_err :
        {A : Type 0} (body : Exec (Desk) A) (f : Failure)
        → body desk ≡ (err f, desk)
        → (errors' : Heap Bytes) × (finish (guard true body host)
            ≡ ((none, error_of {A = A} (err f)), record { errors = errors'; inner = desk }))
          × Tidy errors' pins
    finish_err body f e = finish-Tidy t body desk desk (err f) e

    abbrev g : Handle
    g = Perform.opened usize_max defaults scans txns batches api db errors pins disk

    abbrev s : Model
    s = record { is_open = true; map = laws.contents db }

    abbrev pub Meets : Request → Type 0
    Meets q = ((perform q g).0 ≡ (model q s).0) × Stands (perform q g).1 (model q s).1

    -- A method that returns an error only, given what its call left.
    abbrev ending : Bool → (Option (Unit {0}) × Option GoError) × Host Desk → Answer × Handle
    ending closed ((out, e), host) = (as_done e, record { closed = closed; host = host })

    lands :
        (q : Request) (a : Answer) (g' : Handle) (s' : Model)
        → perform q g ≡ (a, g')
        → model q s ≡ (a, s')
        → Stands g' s'
        → Meets q
    lands q a g' s' e m stands = rw (e, m) (refl, stands)

    -- A method whose body changed the store.
    changes :
        (q : Request) (body : Exec Desk (Unit {0})) (db' : txns.Db) (m : Map)
        → perform q g ≡ ending false (finish (guard true body host))
        → body desk ≡ (ok tt, Bodies.desk usize_max defaults scans txns batches api db' pins disk)
        → model q s ≡ (done, record { is_open = true; map = m })
        → laws.contents db' ≡ m
        → Meets q
    changes q body db' m e b a c =
        let (errors', f, t') = finish_ok body tt _ b in
        lands q done _ _ (e ∙ ap (ending false) f) a (
          is_opened db' errors' pins disk refl
            (ap (λ m. record { is_open = true; map = m }) (sym c)) t')

    abbrev get_call : Bytes → Exec Desk Lent
    get_call k =
        Db.get_borrowed usize_max defaults scans txns batches api (byte_ptr k) (length k)
          (true, true, true)

    -- What `Get` makes of its call.
    abbrev got : (Option Lent × Option GoError) × Host Desk → Answer × Handle
    got r =
        let (a, host) = Store.copy_borrowed usize_max defaults scans txns batches api r in
        (as_value a, record { closed = false; host = host })

    perform-get : (k : Bytes) → perform (get k) g ≡ got (finish (guard true (get_call k) host))
    unfolding Perform.perform Store.get regolith_db_get_borrowed
    perform-get k = refl

    pub get-Meets : (k : Bytes) → Meets (get k)
    unfolding model Store.copy_borrowed error_of
    get-Meets k = elim (Option-cases (laws.contents db k)) [
      | inl e ↦
          let (errors', q, t') =
            finish_err (get_call k) (code not_found)
              (Bodies.get_none usize_max defaults scans txns batches api laws db pins disk k e) in
          lands (get k) (failed err_not_found) _ s (perform-get k ∙ ap got q) (rw e refl)
            (is_opened db errors' pins disk refl refl t')
      | inr (v, e) ↦
          let (lent, pins', b, l) =
            Bodies.get_value usize_max defaults scans txns batches api laws db pins disk k v
              t.pins_ordered e in
          let (errors', q, t') = finish_ok (get_call k) lent _ b in
          lands (get k) (value v) _ s (perform-get k ∙ ap got q ∙ rw l.bytes refl) (rw e refl)
            (is_opened db errors' _ disk refl refl (Lends-Tidy t' lent l))
    ]

    abbrev has_call : Bytes → Exec Desk ℕ
    has_call k = Db.has usize_max defaults scans txns batches api (byte_ptr k) (length k) true

    abbrev seen : (Option ℕ × Option GoError) × Host Desk → Answer × Handle
    seen ((out, e), host) = (
      as_found (Store.read_flag usize_max defaults scans txns batches api out e, e),
      record { closed = false; host = host },
    )

    perform-has : (k : Bytes) → perform (has k) g ≡ seen (finish (guard true (has_call k) host))
    unfolding Perform.perform Store.has regolith_db_has
    perform-has k = refl

    flag_read : (b : Bool) → not ((if b then 1 else 0) == 0) ≡ b
    flag_read true = refl
    flag_read false = refl

    pub has-Meets : (k : Bytes) → Meets (has k)
    unfolding model Store.read_flag
    has-Meets k =
        let b = Bodies.has_body usize_max defaults scans txns batches api laws db pins disk k in
        let (errors', q, t') = finish_ok (has_call k) _ _ b in
        lands (has k) (found (has_value (laws.contents db k))) _ s
          (perform-has k
            ∙ ap seen q
            ∙ ap
                (λ b. (
                  found b,
                  Perform.opened usize_max defaults scans txns batches api db errors' pins disk,
                ))
                (flag_read (has_value (laws.contents db k))))
          refl (is_opened db errors' pins disk refl refl t')

    pub put-Meets : (k v : Bytes) → IsServable usize_max laws.limits (put k v) → Meets (put k v)
    unfolding model Perform.perform Store.set regolith_db_set
    put-Meets k v (taken, h) =
        changes (put k v)
          (Db.set usize_max defaults scans txns batches api (byte_ptr k) (length k) (byte_ptr v)
            (length v))
          (api.put k v db).1 _ refl
          (Bodies.set_body usize_max defaults scans txns batches api laws db pins disk k v taken h)
          refl (laws.put_is k v db taken h).1

    pub remove-Meets : (k : Bytes) → IsServable usize_max laws.limits (remove k) → Meets (remove k)
    unfolding model Perform.perform Store.delete regolith_db_delete
    remove-Meets k (taken, h) =
        changes (remove k)
          (Db.delete usize_max defaults scans txns batches api (byte_ptr k) (length k))
          (api.remove k db).1 _ refl
          (Bodies.delete_body usize_max defaults scans txns batches api laws db pins disk k taken h)
          refl (laws.remove_is k db taken h).1

    pub drop_all-Meets : Meets drop_all
    unfolding model Perform.perform Store.drop_all regolith_db_drop_all
    drop_all-Meets =
        changes drop_all (Db.drop_all usize_max defaults scans txns batches api) (api.drop_all db).1
          _ refl (Bodies.drop_all_body usize_max defaults scans txns batches api laws db pins disk)
          refl (laws.drop_all_is db).1

    pub close-Meets : Meets close
    unfolding model Perform.perform Store.close regolith_db_close
    close-Meets =
        let (errors', q, t') =
          finish_ok (Db.close usize_max defaults scans txns batches api) tt _
            (Bodies.close_body usize_max defaults scans txns batches api laws db pins disk) in
        lands close done _ _ (ap (ending true) q) refl (is_closed refl refl t')

    abbrev write_call : List RawOp → Exec Desk (Unit {0})
    write_call ops =
        let buf = (pack new_write_batch ops).buf in
        Db.write usize_max defaults scans txns batches api (byte_ptr buf) (length buf)

    not_empty : (op : RawOp) (ops : List RawOp) → ((pack new_write_batch (op ∷ ops)).n == 0) ≡ false
    not_empty op ops = ground (arith, n-pack new_write_batch (op ∷ ops))

    perform-write :
        (op : RawOp) (ops : List RawOp)
        → perform (write (op ∷ ops)) g
          ≡ ending false (finish (guard true (write_call (op ∷ ops)) host))
    unfolding Perform.perform Store.write regolith_db_write
    perform-write op ops = rw (not_empty op ops) refl

    write_empty-Meets : Meets (write [])
    unfolding model Perform.perform Store.write pack record_len
    write_empty-Meets = (refl, is_opened db errors pins disk refl refl t)

    model-write :
        (ops : List RawOp)
        → batch_count_len + record_len ops ≤ max_batch_record_len
        → model (write ops) s
          ≡ (done, record { is_open = true; map = replayed ops (laws.contents db) })
    unfolding model
    model-write ops h = ground arith

    model-write_over :
        (ops : List RawOp)
        → max_batch_record_len < batch_count_len + record_len ops
        → model (write ops) s ≡ (failed err_invalid_argument, s)
    unfolding model
    model-write_over ops h = ground arith

    fits-cases :
        (ops : List RawOp)
        → (batch_count_len + record_len ops ≤ max_batch_record_len)
          ⊎ (max_batch_record_len < batch_count_len + record_len ops)
    fits-cases ops = omega arith

    pub write-Meets :
        (ops : List RawOp)
        → usize_max ≤ u64_max
        → IsServable usize_max laws.limits (write ops)
        → Meets (write ops)
    unfolding error_of
    write-Meets [] u (a, taken) = write_empty-Meets
    write-Meets (op ∷ ops) u (a, taken) = elim (fits-cases (op ∷ ops)) [
      | inl h ↦
          changes (write (op ∷ ops)) (write_call (op ∷ ops)) _ _ (perform-write op ops)
            (Bodies.write_body usize_max defaults scans txns batches api laws db pins disk
              (op ∷ ops) u a taken h)
            (model-write (op ∷ ops) h) (laws.write_is (op ∷ ops) db taken h).1
      | inr h ↦
          let (j, b) =
            Bodies.write_refused usize_max defaults scans txns batches api laws db pins disk
              (op ∷ ops) u a h in
          let (errors', q, t') =
            finish_err (write_call (op ∷ ops)) (invalid_arg (past_limit j)) b in
          lands (write (op ∷ ops)) (failed err_invalid_argument) _ s
            (perform-write op ops ∙ ap (ending false) q) (model-write_over (op ∷ ops) h)
            (is_opened db errors' pins disk refl refl t')
    ]
