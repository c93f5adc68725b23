-- ===== src/Go/Perform.antt =====
-- One call of a method of regolith.go's `DB`, as a caller sees it, and the handles that stand for a model.
use go_regolith.Base.{ℕ, ◌≡◌, Option, none, some, Bool, true, false, List, [], ◌∷◌}
use go_regolith.Failure.{Bytes}
use go_regolith.Guard.{Heap}
use go_regolith.Batch.{WriteBatch}
use go_regolith.Batch.Pack.{pack, new_write_batch}
use go_regolith.Options.{ResolvedOptions}
use go_regolith.Iter.Machine.{Scans}
use go_regolith.Txn.{Transactions}
use go_regolith.Db.{Databases}
use go_regolith.Go.Errors.{GoError}
use go_regolith.Go.Store
use go_regolith.Go.Store.{finish, byte_ptr, GoDb}
use go_regolith.Go.Tidy as Tidiness
use go_regolith.Go.Bodies.{KeepsMap}
use go_regolith.Go.Model.{
  Request, get, has, put, remove, write, drop_all, close, Answer, value, found, done, failed, Model,
}

-- What a caller sees of a method's results, an error by `errors.Is`.
abbrev pub as_value : Bytes × Option GoError → Answer
as_value (v, none) = value v
as_value (v, some e) = failed e.sentinel

abbrev pub as_found : Bool × Option GoError → Answer
as_found (b, none) = found b
as_found (b, some e) = failed e.sentinel

abbrev pub as_done : Option GoError → Answer
as_done none = done
as_done (some e) = failed e.sentinel

module _ {Others : Type 0} (usize_max : ℕ) (defaults : ResolvedOptions Others) (scans : Scans)
    (txns : Transactions scans.Txn) (batches : WriteBatch)
    (api : Databases scans txns batches Others) where
  abbrev pub Handle : Type 0
  Handle = GoDb usize_max defaults scans txns batches api

  -- One method call. A batch is filled by its own methods first.
  unfoldable pub perform : Request → Handle → Answer × Handle
  perform (get k) g =
      let (r, g') = Store.get usize_max defaults scans txns batches api k g in (as_value r, g')
  perform (has k) g =
      let (r, g') = Store.has usize_max defaults scans txns batches api k g in (as_found r, g')
  perform (put k v) g =
      let (r, g') = Store.set usize_max defaults scans txns batches api k v g in (as_done r, g')
  perform (remove k) g =
      let (r, g') = Store.delete usize_max defaults scans txns batches api k g in (as_done r, g')
  perform (write ops) g =
      let (r, g') =
        Store.write usize_max defaults scans txns batches api (some (pack new_write_batch ops)) g in
      (as_done r, g')
  perform drop_all g =
      let (r, g') = Store.drop_all usize_max defaults scans txns batches api g in (as_done r, g')
  perform close g =
      let (r, g') = Store.close usize_max defaults scans txns batches api g in (as_done r, g')

  unfoldable pub perform_all : List Request → Handle → List Answer × Handle
  unfolding perform
  perform_all [] g = ([], g)
  perform_all (q ∷ qs) g =
      let (a, g') = perform q g in let (answers, g'') = perform_all qs g' in (a ∷ answers, g'')

  abbrev pub opened : txns.Db → Heap Bytes → Heap Bytes → api.Disk → Handle
  opened db errors pins disk = record {
    closed = false;
    host = record {
      errors = errors;
      inner = record { handle = some db; pins = pins; disk = disk };
    };
  }

  module _ (laws : KeepsMap usize_max defaults scans txns batches api) (e₀ p₀ : Heap Bytes) where
    abbrev pub Tidy : Heap Bytes → Heap Bytes → Type 0
    Tidy = Tidiness.Tidy e₀ p₀

    -- The handle stands for the model: an open store that holds its map, or a handle that was closed.
    pub data Stands (g : Handle) (s : Model) : Type 0 where
      is_opened :
          (db : txns.Db) (errors pins : Heap Bytes) (disk : api.Disk)
          → g ≡ opened db errors pins disk
          → s ≡ record { is_open = true; map = laws.contents db }
          → Tidy errors pins
          → Stands g s
      is_closed :
          g.closed ≡ true → s.is_open ≡ false → Tidy g.host.errors g.host.inner.pins → Stands g s
