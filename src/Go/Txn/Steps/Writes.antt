-- ===== src/Go/Txn/Steps/Writes.antt =====
-- Set and Delete of a Go `Txn` that is not resolved.
use go_regolith.Base.{
  ◌≡◌, refl, ap, ◌∙◌, inl, inr, Option, some, Bool, true, false, [], ◌∷◌, ◌++◌, ◌+◌, ◌≤◌,
  Bool-cases, length,
}
use go_regolith.Failure.{Bytes, code, read_only_txn, ok, err}
use go_regolith.Exec.{Exec}
use go_regolith.Guard.{Heap, Host, guard}
use go_regolith.Iter.Machine.{Scans}
use go_regolith.Txn
use go_regolith.Txn.{Transactions, Call, returned, transaction_error}
use go_regolith.Txn.Calls.{regolith_txn_set, regolith_txn_delete}
use go_regolith.Batch.{RawOp, batch_count_len, max_batch_record_len}
use go_regolith.Batch.Sizing.{IsTaken, record_len}
use go_regolith.Go.Errors.{GoError, error_of, classify, err_read_only}
use go_regolith.Go.Store.{finish, byte_ptr}
use go_regolith.Go.Tidy.{finish-Tidy}
use go_regolith.Go.Model.{Answer, done, failed}
use go_regolith.Go.Perform.{as_done}
use go_regolith.Go.Txn as GoSide
use go_regolith.Go.Txn.Handle.{Request, set, delete}
use go_regolith.Go.Txn.Overlay.{Event, call, Overlay, overlay}
use go_regolith.Go.Txn.Bodies
use go_regolith.Go.Txn.Bodies.{KeepsWrites}
use go_regolith.Go.Txn.Serve
use go_regolith.Go.Txn.Serve.{is_live, is_resolved}
use go_regolith.Go.Txn.Steps
use go_regolith.Go.Txn.Steps.{Found, lands, kept}

module _ (scans : Scans) (api : Transactions scans.Txn) (laws : KeepsWrites scans api)
    (e₀ p₀ : Heap Bytes) (at : Found scans api e₀ p₀) where
  open at use {id, cells, errors, pins, db, t, ro, cell, tidy}

  abbrev Seat : Type 0
  Seat = Bodies.Seat scans api

  abbrev GoTxn : Type 0
  GoTxn = Serve.GoTxn scans api

  abbrev here : Seat
  here = Steps.here scans api laws e₀ p₀ at

  abbrev host : Host Seat
  host = Steps.host scans api laws e₀ p₀ at

  abbrev g : GoTxn
  g = Steps.g scans api laws e₀ p₀ at

  abbrev s : Overlay
  s = Steps.s scans api laws e₀ p₀ at

  abbrev perform : Event api.Db → GoTxn → Answer × GoTxn
  perform = Serve.perform scans api

  abbrev specified : Bool → Event api.Db → Overlay → Answer × Overlay
  specified = overlay laws.contents

  abbrev Meets : Event api.Db → Type 0
  Meets = Steps.Meets scans api laws e₀ p₀ at

  -- A method that returns an error only.
  abbrev closing : Bool → (Option (Unit {0}) × Option GoError) × Host Seat → Answer × GoTxn
  closing resolved ((out, e), host) = (as_done e, record { resolved = resolved; host = host })

  abbrev set_call : Bytes → Bytes → Exec Seat (Unit {0})
  set_call k v = Txn.set scans api (byte_ptr k) (length k) (byte_ptr v) (length v)

  perform-set :
      (k v : Bytes)
      → perform (call (set k v) false) g ≡ closing false (finish (guard true (set_call k v) host))
  unfolding Serve.perform GoSide.set GoSide.begin regolith_txn_set
  perform-set k v = refl

  abbrev delete_call : Bytes → Exec Seat (Unit {0})
  delete_call k = Txn.delete scans api (byte_ptr k) (length k)

  perform-delete :
      (k : Bytes)
      → perform (call (delete k) false) g ≡ closing false (finish (guard true (delete_call k) host))
  unfolding Serve.perform GoSide.delete GoSide.begin regolith_txn_delete
  perform-delete k = refl

  -- A write that the transaction buffers.
  writes :
      (q : Request) (body : Exec Seat (Unit {0})) (op : RawOp) (t' : scans.Txn)
      → perform (call q false) g ≡ closing false (finish (guard true body host))
      → body here ≡ (
        ok tt,
        Bodies.seat scans api
            (some id)
            (Bodies.held scans api id cells pins db t ro cell t')
            pins
            db,
      )
      → specified true (call q false) s ≡ (done, record s { writes = s.writes ++ (op ∷ []) })
      → laws.base t' ≡ laws.base t
      → laws.writes t' ≡ laws.writes t ++ (op ∷ [])
      → Meets (call q false)
  unfolding error_of classify
  writes q body op t' e b m eb ew =
      let (errors', f, tidy') = finish-Tidy tidy body here _ _ b in
      lands scans api laws e₀ p₀ at true (call q false) done _ _ (e ∙ ap (closing false) f) m
        (kept scans api laws e₀ p₀ at t' errors' pins _ eb ew tidy')

  -- A write that a read-only transaction refuses.
  refuses :
      (q : Request) (body : Exec Seat (Unit {0}))
      → perform (call q false) g ≡ closing false (finish (guard true body host))
      → body here ≡ (err (code read_only_txn), here)
      → specified true (call q false) s ≡ (failed err_read_only, s)
      → Meets (call q false)
  unfolding error_of classify
  refuses q body e b m =
      let (errors', f, tidy') = finish-Tidy tidy body here _ _ b in
      lands scans api laws e₀ p₀ at true (call q false) (failed err_read_only) _ s
        (e ∙ ap (closing false) f) m (is_live id cells errors' pins db t ro refl cell refl tidy')

  pub set-Meets :
      (k v : Bytes)
      → IsTaken laws.limits (RawOp.set k v)
      → batch_count_len + record_len (RawOp.set k v ∷ []) ≤ max_batch_record_len
      → Meets (call (set k v) false)
  unfolding overlay
  set-Meets k v taken h = elim (Bool-cases ro) [
    | inl y ↦
        refuses (set k v) (set_call k v) (perform-set k v)
          (Bodies.set_refused scans api id cells pins db t ro cell k v y) (rw y refl)
    | inr n ↦
        let (put, eb, ew) = laws.put_is k v t taken h in
        writes (set k v) (set_call k v) (RawOp.set k v) _ (perform-set k v)
          (Bodies.set_body scans api id cells pins db t ro cell k v n put) (rw n refl) eb ew
  ]

  pub delete-Meets :
      (k : Bytes)
      → IsTaken laws.limits (RawOp.delete k)
      → batch_count_len + record_len (RawOp.delete k ∷ []) ≤ max_batch_record_len
      → Meets (call (delete k) false)
  unfolding overlay
  delete-Meets k taken h = elim (Bool-cases ro) [
    | inl y ↦
        refuses (delete k) (delete_call k) (perform-delete k)
          (Bodies.delete_refused scans api id cells pins db t ro cell k y) (rw y refl)
    | inr n ↦
        let (removed, eb, ew) = laws.remove_is k t taken h in
        writes (delete k) (delete_call k) (RawOp.delete k) _ (perform-delete k)
          (Bodies.delete_body scans api id cells pins db t ro cell k n removed) (rw n refl) eb ew
  ]
