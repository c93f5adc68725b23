-- ===== src/Go/Refine.antt =====
-- Each request, and every sequence of them, through Go, the C ABI and the engine, against Go/Model.
use go_regolith.Base.{ℕ, ◌≤◌, ◌≡◌, refl, true, false, List, [], ◌∷◌, All}
use go_regolith.Failure.{Bytes}
use go_regolith.Guard.{Heap}
use go_regolith.Batch.{WriteBatch, u64_max}
use go_regolith.Options.{ResolvedOptions}
use go_regolith.Iter.Machine.{Scans}
use go_regolith.Txn.{Transactions}
use go_regolith.Db.{Databases}
use go_regolith.Go.Store
use go_regolith.Go.Store.{finish, byte_ptr, GoDb}
use go_regolith.Go.Bodies.{KeepsMap}
use go_regolith.Go.Model.{
  Request, get, has, put, remove, write, drop_all, close, Answer, Model, when_closed, model,
  model_all, IsServable,
}
use go_regolith.Go.Perform.{as_value, as_found, as_done}
use go_regolith.Go.Perform
use go_regolith.Go.Perform.{is_opened, is_closed}
use go_regolith.Go.Steps

module _ {Others : Type 0} (usize_max : ℕ) (defaults : ResolvedOptions Others) (scans : Scans)
    (txns : Transactions scans.Txn) (batches : WriteBatch)
    (api : Databases scans txns batches Others)
    (laws : KeepsMap usize_max defaults scans txns batches api) (e₀ p₀ : Heap Bytes) where
  abbrev Handle : Type 0
  Handle = GoDb usize_max defaults scans txns batches api

  abbrev Tidy : Heap Bytes → Heap Bytes → Type 0
  Tidy = Perform.Tidy usize_max defaults scans txns batches api laws e₀ p₀

  abbrev Stands : Handle → Model → Type 0
  Stands = Perform.Stands usize_max defaults scans txns batches api laws e₀ p₀

  abbrev perform : Request → Handle → Answer × Handle
  perform = Perform.perform usize_max defaults scans txns batches api

  abbrev Agrees : Request → Handle → Model → Type 0
  Agrees q g s = ((perform q g).0 ≡ (model q s).0) × Stands (perform q g).1 (model q s).1

  -- An open store.
  meets :
      (q : Request) (db : txns.Db) (errors pins : Heap Bytes) (disk : api.Disk)
      (t : Tidy errors pins)
      → usize_max ≤ u64_max
      → IsServable usize_max laws.limits q
      → Steps.Meets usize_max defaults scans txns batches api laws e₀ p₀ db errors pins disk t q
  meets (get k) db errors pins disk t u h =
      Steps.get-Meets usize_max defaults scans txns batches api laws e₀ p₀ db errors pins disk t k
  meets (has k) db errors pins disk t u h =
      Steps.has-Meets usize_max defaults scans txns batches api laws e₀ p₀ db errors pins disk t k
  meets (put k v) db errors pins disk t u h =
      Steps.put-Meets usize_max defaults scans txns batches api laws e₀ p₀ db errors pins disk t k v
        h
  meets (remove k) db errors pins disk t u h =
      Steps.remove-Meets usize_max defaults scans txns batches api laws e₀ p₀ db errors pins disk t
        k h
  meets (write ops) db errors pins disk t u h =
      Steps.write-Meets usize_max defaults scans txns batches api laws e₀ p₀ db errors pins disk t
        ops u h
  meets drop_all db errors pins disk t u h =
      Steps.drop_all-Meets usize_max defaults scans txns batches api laws e₀ p₀ db errors pins disk
        t
  meets close db errors pins disk t u h =
      Steps.close-Meets usize_max defaults scans txns batches api laws e₀ p₀ db errors pins disk t

  -- A handle that was closed.
  refuses :
      (q : Request) (g : Handle) (s : Model) → g.closed ≡ true → (perform q g ≡ (when_closed q, g))
  unfolding Perform.perform Store.get Store.has Store.set Store.delete Store.write Store.drop_all
      Store.close
  refuses (get k) g s c = rw c refl
  refuses (has k) g s c = rw c refl
  refuses (put k v) g s c = rw c refl
  refuses (remove k) g s c = rw c refl
  refuses (write ops) g s c = rw c refl
  refuses drop_all g s c = rw c refl
  refuses close g s c = rw c refl

  model_closed : (q : Request) (s : Model) → s.is_open ≡ false → model q s ≡ (when_closed q, s)
  unfolding model
  model_closed q s c = rw c refl

  -- One call of a method of `DB`: its answer is that of the map of Go/Model, on every branch; and the handle
  -- that is left stands for the model's state, with no error object and no value handle left behind. The
  -- hypotheses: the handle stands for the state before, and the request is one that the engine can serve.
  pub perform-model :
      (q : Request) (g : Handle) (s : Model)
      → usize_max ≤ u64_max
      → IsServable usize_max laws.limits q
      → Stands g s
      → Agrees q g s
  perform-model q g s u h (is_opened db errors pins disk eg es t) =
      rw (eg, es) (meets q db errors pins disk t u h)
  perform-model q g s u h (is_closed c o t) =
      rw (refuses q g s c, model_closed q s o) (refl, is_closed c o t)

  -- For an engine that keeps maps, on a platform whose usize is within 64 bits, a handle that stands for a
  -- state of the model, and requests that the engine can serve: any sequence of calls of the methods of
  -- `DB` gets the answers of the map of Go/Model, and leaves a handle that stands for the model's last
  -- state, with no error object and no value handle left behind.
  pub perform_all-model_all :
      (qs : List Request) (g : Handle) (s : Model)
      → usize_max ≤ u64_max
      → All (IsServable usize_max laws.limits) qs
      → Stands g s
      → ((Perform.perform_all usize_max defaults scans txns batches api qs g).0
          ≡ (model_all qs s).0)
        × Stands
            (Perform.perform_all usize_max defaults scans txns batches api qs g).1
            (model_all qs s).1
  unfolding Perform.perform_all model_all
  perform_all-model_all [] g s u h stands = (refl, stands)
  perform_all-model_all (q ∷ qs) g s u (h, hs) stands =
      let (a, stands') = perform-model q g s u h stands in
      let (answers, last) = perform_all-model_all qs _ _ u hs stands' in
      (rw (a, answers) refl, last)
