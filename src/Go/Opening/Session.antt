-- ===== src/Go/Opening/Session.antt =====
-- A store opened, used, closed and opened again, through Go, the C ABI and the engine.
use go_regolith.Base.{Bool, ℕ, Option, ◌≤◌, ◌≡◌, refl, ap, ◌∙◌, inr, some, true, List, All, false}
use mathlib.Core.Path.{subst}
use go_regolith.Failure.{Bytes}
use go_regolith.Guard.{Heap, Host, guard}
use go_regolith.Batch.{WriteBatch, u64_max}
use go_regolith.Options.{ResolvedOptions, EngineOptions, IsolationLevel}
use go_regolith.Options.Settings.{Settings, in_go, applied, IsHeld}
use go_regolith.Iter.Machine.{Scans}
use go_regolith.Txn.{Transactions, returned, asked}
use go_regolith.Db
use go_regolith.Db.{Databases}
use go_regolith.Db.Utf8.{from_utf8}
use go_regolith.Db.Calls.{regolith_db_close}
use go_regolith.Go.Errors.{GoError, error_of, classify}
use go_regolith.Go.Store
use go_regolith.Go.Store.{finish, GoDb}
use go_regolith.Go.Finish.{finish-ok}
use go_regolith.Go.Bodies
use go_regolith.Go.Bodies.{KeepsMap}
use go_regolith.Go.Model.{Map, Request, close, Answer, done, Model, model_all, IsServable}
use go_regolith.Go.Perform
use go_regolith.Go.Perform.{as_done, is_opened, is_closed}
use go_regolith.Go.Refine.{perform_all-model_all}
use go_regolith.Go.Opening
use go_regolith.Go.Opening.{World}
use go_regolith.Go.Opening.Asks.{open_with-handed}

module _ {Others : Type 0} (usize_max : ℕ) (defaults : ResolvedOptions Others) (scans : Scans)
    (txns : Transactions scans.Txn) (batches : WriteBatch)
    (api : Databases scans txns batches Others) where
  -- The documented behaviour of opening and closing, for a disk that holds one store. The engine accepts
  -- some paths and options (not every directory is usable, not every value of an option); with those, on a
  -- disk that no open store uses, a store is opened with what the disk holds; closing it leaves on the disk
  -- what it holds, and the disk free.
  pub record KeepsDisk (laws : KeepsMap usize_max defaults scans txns batches api) : Type 0 where
    pub stored : api.Disk → Map
    pub accepts : Bytes → EngineOptions Others → Bool
    pub in_use : api.Disk → Bool
    pub opens :
        (path : Bytes) (options : EngineOptions Others) (disk : api.Disk)
        → accepts path options ≡ true
        → in_use disk ≡ false
        → (db : txns.Db) × ((api.open_store path options disk).0 ≡ returned db)
          × (laws.contents db ≡ stored disk)
    pub level_is :
        (level : IsolationLevel) (db : txns.Db)
        → laws.contents (api.with_isolation level db) ≡ laws.contents db
    pub close_stores :
        (db : txns.Db) (disk : api.Disk)
        → (stored (api.close db disk).1 ≡ laws.contents db) × (in_use (api.close db disk).1 ≡ false)

  abbrev pub Worlds : Type 0
  Worlds = World usize_max defaults scans txns batches api

  abbrev pub Handle : Type 0
  Handle = GoDb usize_max defaults scans txns batches api

  abbrev pub world_of : Handle → Worlds
  world_of g = record { errors = g.host.errors; pins = g.host.inner.pins; disk = g.host.inner.disk }

  abbrev pub perform : Request → Handle → Answer × Handle
  perform = Perform.perform usize_max defaults scans txns batches api

  abbrev pub perform_all : List Request → Handle → List Answer × Handle
  perform_all = Perform.perform_all usize_max defaults scans txns batches api

  module _ (laws : KeepsMap usize_max defaults scans txns batches api) (disks : KeepsDisk laws)
      (e₀ p₀ : Heap Bytes) where
    abbrev pub Tidy : Heap Bytes → Heap Bytes → Type 0
    Tidy = Perform.Tidy usize_max defaults scans txns batches api laws e₀ p₀

    abbrev pub Stands : Handle → Model → Type 0
    Stands = Perform.Stands usize_max defaults scans txns batches api laws e₀ p₀

    -- `OpenWith` gives a handle that stands for an open store that holds `map`.
    pub record Opens (path : Bytes) (s : Settings) (w : Worlds) (map : Map) : Type 0 where
      pub handle : Handle
      pub opened :
          Opening.open_with usize_max defaults scans txns batches api path (in_go s) w ≡ inr handle
      pub stands : Stands handle (record { is_open = true; map = map })

    open_with-Opens :
        (path : Bytes) (s : Settings) (w : Worlds)
        → from_utf8 path ≡ some path
        → IsHeld usize_max s
        → disks.accepts path (applied s defaults).engine ≡ true
        → disks.in_use w.disk ≡ false
        → Tidy w.errors w.pins
        → Opens path s w (disks.stored w.disk)
    unfolding error_of classify asked
    open_with-Opens path s w u h accepted unused t =
        let (db, answer, held) =
          disks.opens path (applied s defaults).engine w.disk accepted unused in
        let (errors, q, same, ordered) =
          open_with-handed usize_max defaults scans txns batches api path s w t.errors_ordered u
            h in
        let level = (applied s defaults).isolation in
        let disk = (api.open_store path (applied s defaults).engine w.disk).1 in
        record {
          handle =
              Perform.opened usize_max defaults scans txns batches api (api.with_isolation level db)
                errors w.pins disk;
          opened = q ∙ rw answer refl;
          stands =
              is_opened (api.with_isolation level db) errors w.pins disk refl
                (rw (disks.level_is level db, held) refl)
                (record {
                  errors_same = λ p. same p ∙ t.errors_same p;
                  errors_ordered = ordered;
                  pins_same = t.pins_same;
                  pins_ordered = t.pins_ordered;
                });
        }

    -- Closing an open store leaves its map on the disk, and the disk free.
    record Closes (g : Handle) (map : Map) : Type 0 where
      answer : (perform close g).0 ≡ done
      stored : disks.stored (world_of (perform close g).1).disk ≡ map
      unused : disks.in_use (world_of (perform close g).1).disk ≡ false
      tidy : Tidy (world_of (perform close g).1).errors (world_of (perform close g).1).pins

    abbrev shut :
        (Option (Unit {0}) × Option GoError)
          × Host (Bodies.Desk usize_max defaults scans txns batches api)
        → Answer × Handle
    shut ((out, e), host) = (as_done e, record { closed = true; host = host })

    shut_call :
        (db : txns.Db) (errors pins : Heap Bytes) (disk : api.Disk)
        → perform close
            (Perform.opened usize_max defaults scans txns batches api db errors pins disk)
          ≡ shut (
              finish (
                guard true (Db.close usize_max defaults scans txns batches api) (record {
                  errors = errors;
                  inner = Bodies.desk usize_max defaults scans txns batches api db pins disk;
                })))
    unfolding Perform.perform Store.close regolith_db_close
    shut_call db errors pins disk = refl

    opened-Closes :
        (db : txns.Db) (errors pins : Heap Bytes) (disk : api.Disk)
        → Tidy errors pins
        → Closes
            (Perform.opened usize_max defaults scans txns batches api db errors pins disk)
            (laws.contents db)
    opened-Closes db errors pins disk t =
        let (errors', q, same, ordered) =
          finish-ok (Db.close usize_max defaults scans txns batches api)
            (record {
              errors = errors;
              inner = Bodies.desk usize_max defaults scans txns batches api db pins disk;
            })
            tt _ t.errors_ordered
            (Bodies.close_body usize_max defaults scans txns batches api laws db pins disk) in
        let closed = shut_call db errors pins disk ∙ ap shut q in
        record {
          answer = rw closed refl;
          stored = rw closed (disks.close_stores db disk).0;
          unused = rw closed (disks.close_stores db disk).1;
          tidy = rw closed (record {
            errors_same = λ p. same p ∙ t.errors_same p;
            errors_ordered = ordered;
            pins_same = t.pins_same;
            pins_ordered = t.pins_ordered;
          });
        }

    open-Closes : (g : Handle) (s : Model) → s.is_open ≡ true → Stands g s → Closes g s.map
    open-Closes g s o (is_opened db errors pins disk eg es t) =
        rw (eg, es) (opened-Closes db errors pins disk t)
    open-Closes g s o (is_closed c closed t) = absurd cc

    -- For an engine that keeps maps and stores them on its disk, which holds one store, on a platform whose
    -- usize is within 64 bits, heaps where no object is numbered from the next number on, a path of UTF-8,
    -- settings whose numbers the usize holds and that the engine accepts for the path, a disk that no open
    -- store uses, and requests that the engine can serve and that do not close the store: `OpenWith` gives a handle; the requests get the
    -- answers of the map of Go/Model that starts with what was on disk; `Close` succeeds; and `OpenWith`
    -- afterwards, with the same settings or others, gives a handle on a store that holds the map that the
    -- requests left. No error object and no value handle is left behind.
    pub reopened-perform_all :
        (path : Bytes) (s s' : Settings) (w : Worlds) (qs : List Request)
        → usize_max ≤ u64_max
        → from_utf8 path ≡ some path
        → IsHeld usize_max s
        → IsHeld usize_max s'
        → disks.accepts path (applied s defaults).engine ≡ true
        → disks.accepts path (applied s' defaults).engine ≡ true
        → disks.in_use w.disk ≡ false
        → Tidy w.errors w.pins
        → All (IsServable usize_max laws.limits) qs
        → (model_all qs (record { is_open = true; map = disks.stored w.disk })).1.is_open ≡ true
        → (first : Opens path s w (disks.stored w.disk)) × ((perform_all qs first.handle).0
            ≡ (model_all qs (record { is_open = true; map = disks.stored w.disk })).0)
          × ((perform close (perform_all qs first.handle).1).0 ≡ done)
          × Opens path s'
              (world_of (perform close (perform_all qs first.handle).1).1)
              (model_all qs (record { is_open = true; map = disks.stored w.disk })).1.map
    reopened-perform_all path s s' w qs u t h h' accepted accepted' unused tidy servable stays =
        let first = open_with-Opens path s w t h accepted unused tidy in
        let (answers, stands) =
          perform_all-model_all usize_max defaults scans txns batches api laws e₀ p₀ qs first.handle
            (record { is_open = true; map = disks.stored w.disk }) u servable first.stands in
        let closes = open-Closes _ _ stays stands in
        (
          first,
          answers,
          closes.answer,
          subst (Opens path s' _) closes.stored
              (open_with-Opens path s' _ t h' accepted' closes.unused closes.tidy),
        )
