-- ===== src/Go/Store.antt =====
-- regolith.go: the methods of `DB`, over the entry points of ffi/src/db.rs. The lock `closeLk` makes each
-- method one step. A nil slice is the empty one. Lengths are those of the engine's records, of 1 GiB at
-- most, which `C.int` holds.
use go_regolith.Base.{
  ℕ, Option, none, some, Bool, true, false, not, [], ◌∷◌, ◌==◌, if◌then◌else◌, length, take,
}
use go_regolith.Failure.{Bytes}
use go_regolith.Guard.{Host, Reply, Lent, regolith_release_value}
use go_regolith.Batch.{WriteBatch}
use go_regolith.Batch.Pack.{Packed}
use go_regolith.Options.{ResolvedOptions}
use go_regolith.Iter.Bounds.{InPointer}
use go_regolith.Iter.Machine.{Scans}
use go_regolith.Txn.{Transactions}
use go_regolith.Db
use go_regolith.Db.{Databases}
use go_regolith.Db.Calls.{
  regolith_db_close, regolith_db_get_borrowed, regolith_db_has, regolith_db_set, regolith_db_delete,
  regolith_db_write, regolith_db_drop_all,
}
use go_regolith.Go.Errors.{GoError, bare, err_closed, status_to_err}

unfoldable pub byte_ptr : Bytes → InPointer
byte_ptr [] = none
byte_ptr (b ∷ bs) = some (b ∷ bs)

-- What a call gave a Go function: the out-params, if they were written, and the error.
unfoldable pub finish {ℓ κ} :
    {S : Type ℓ} {A : Type κ} → Reply A × Host S → (Option A × Option GoError) × Host S
unfolding status_to_err
finish (reply, host) =
    let (e, errors) = status_to_err reply.status reply.slot host.errors in
    ((reply.out, e), record host { errors = errors })

-- `C.GoBytes` of what was lent, nil for a length of 0.
unfoldable pub go_bytes : Lent → Bytes
go_bytes lent =
    if lent.len == 0
    then []
    else elim lent.pointer [ none ↦ [] | some memory ↦ take lent.len memory ]

module _ {Others : Type 0} (usize_max : ℕ) (defaults : ResolvedOptions Others) (scans : Scans)
    (txns : Transactions scans.Txn) (batches : WriteBatch)
    (api : Databases scans txns batches Others) where
  abbrev pub Desk : Type 0
  Desk = Db.Desk usize_max defaults scans txns batches api

  pub record GoDb : Type 0 where
    pub closed : Bool
    pub host : Host Desk

  -- `copyBorrowed`, on what `statusToErr` made of its status: the deferred release comes last.
  unfoldable pub released : Option Lent → Host Desk → Host Desk
  unfolding regolith_release_value
  released none host = host
  released (some lent) host = record host {
    inner = record (host.inner) { pins = regolith_release_value lent.handle host.inner.pins };
  }

  unfoldable pub copied : Option Lent → Option GoError → Bytes
  unfolding go_bytes
  copied (some lent) none = go_bytes lent
  copied _ _ = []

  unfoldable pub copy_borrowed :
      (Option Lent × Option GoError) × Host Desk → (Bytes × Option GoError) × Host Desk
  unfolding released copied
  copy_borrowed ((out, e), host) = ((copied out e, e), released out host)

  unfoldable pub get : Bytes → GoDb → (Bytes × Option GoError) × GoDb
  unfolding copy_borrowed regolith_db_get_borrowed
  get key g =
      if g.closed
      then (([], bare err_closed), g)
      else let (r, host) = copy_borrowed (
          finish (
            regolith_db_get_borrowed usize_max defaults scans txns batches api (byte_ptr key)
              (length key) (true, true, true) true g.host)) in
        (r, record g { host = host })

  unfoldable pub read_flag : Option ℕ → Option GoError → Bool
  read_flag (some found) none = not (found == 0)
  read_flag _ _ = false

  unfoldable pub has : Bytes → GoDb → (Bool × Option GoError) × GoDb
  unfolding regolith_db_has
  has key g =
      if g.closed
      then ((false, bare err_closed), g)
      else let ((found, e), host) = finish (
          regolith_db_has usize_max defaults scans txns batches api (byte_ptr key) (length key) true
            true g.host) in
        ((read_flag found e, e), record g { host = host })

  -- The methods that return an error only.
  abbrev pub ended : GoDb → Reply (Unit {0}) × Host Desk → Option GoError × GoDb
  ended g call = let ((out, e), host) = finish call in (e, record g { host = host })

  unfoldable pub set : Bytes → Bytes → GoDb → Option GoError × GoDb
  unfolding regolith_db_set
  set key value g =
      if g.closed
      then (bare err_closed, g)
      else ended g (
          regolith_db_set usize_max defaults scans txns batches api (byte_ptr key) (length key)
            (byte_ptr value) (length value) true g.host)

  unfoldable pub delete : Bytes → GoDb → Option GoError × GoDb
  unfolding regolith_db_delete
  delete key g =
      if g.closed
      then (bare err_closed, g)
      else ended g (
          regolith_db_delete usize_max defaults scans txns batches api (byte_ptr key) (length key)
            true g.host)

  -- A nil batch is none.
  unfoldable pub write : Option Packed → GoDb → Option GoError × GoDb
  unfolding regolith_db_write
  write none g = if g.closed then (bare err_closed, g) else (none, g)
  write (some b) g =
      if g.closed
      then (bare err_closed, g)
      else if b.n == 0
      then (none, g)
      else ended g (
          regolith_db_write usize_max defaults scans txns batches api (byte_ptr b.buf)
            (length b.buf) true g.host)

  unfoldable pub drop_all : GoDb → Option GoError × GoDb
  unfolding regolith_db_drop_all
  drop_all g =
      if g.closed
      then (bare err_closed, g)
      else ended g (regolith_db_drop_all usize_max defaults scans txns batches api true g.host)

  unfoldable pub close : GoDb → Option GoError × GoDb
  unfolding regolith_db_close
  close g =
      if g.closed
      then (none, g)
      else ended (record g { closed = true })
          (regolith_db_close usize_max defaults scans txns batches api true g.host)
