-- ===== src/Txn/Once.antt =====
-- A transaction is resolved once.
use go_regolith.Base.{ℕ, ◌≡◌, refl, ap, ◌∙◌, Option, none, some, false, List, [], ◌∷◌, arith}
use go_regolith.Failure.{ok}
use go_regolith.Iter.Machine.{Scans}
use go_regolith.Txn
use go_regolith.Txn.Calls.{
  Request, get_borrowed, has, set, delete, iter, commit, discard, free, serve, serve_all,
}
use go_regolith.Txn.Resolve.{IsResolved, handle_after, serve-resolved, serve-null, on_txn-handle}

module _ (scans : Scans) (api : Txn.Transactions scans.Txn) where
  abbrev Seat : Type 0
  Seat = Txn.Seat scans api

  -- What a run of calls leaves as it was.
  pub record Same (s t : Seat) : Type 0 where
    pub cells : t.cells ≡ s.cells
    pub pins : t.pins ≡ s.pins
    pub db : t.db ≡ s.db

  -- On a null handle, or on one of a resolved transaction.
  data Settled (id : ℕ) (s : Seat) : Type 0 where
    gone : s.handle ≡ none → Settled id s
    held : s.handle ≡ some id → Settled id s

  Settled-handle_after :
      (id : ℕ) (s : Seat)
      → s.handle ≡ some id
      → (q : Request) → Settled id (record s { handle = handle_after q s.handle })
  unfolding handle_after
  Settled-handle_after id s h (get_borrowed key key_len outs) = held h
  Settled-handle_after id s h (has key key_len found) = held h
  Settled-handle_after id s h (set key key_len value value_len) = held h
  Settled-handle_after id s h (delete key key_len) = held h
  Settled-handle_after id s h (iter opts out) = held h
  Settled-handle_after id s h commit = gone refl
  Settled-handle_after id s h discard = held h
  Settled-handle_after id s h free = gone refl

  serve-Same :
      (id : ℕ) (s : Seat) (q : Request)
      → IsResolved scans api id s
      → Settled id s
      → Same s (serve scans api q s).1
        × IsResolved scans api id (serve scans api q s).1
        × Settled id (serve scans api q s).1
  serve-Same id s q r (gone h) =
      rw (serve-null scans api s h q) (record { cells = refl; pins = refl; db = refl }, r, gone h)
  serve-Same id s q r (held h) = rw (serve-resolved scans api id s h r q) (
    record { cells = refl; pins = refl; db = refl },
    record { empty = r.empty; sound = r.sound },
    Settled-handle_after id s h q,
  )

  serve_all-Same :
      (id : ℕ) (s : Seat) (qs : List Request)
      → IsResolved scans api id s
      → Settled id s
      → Same s (serve_all scans api qs s) × IsResolved scans api id (serve_all scans api qs s)
  unfolding serve_all
  serve_all-Same id s [] r d = (record { cells = refl; pins = refl; db = refl }, r)
  serve_all-Same id s (q ∷ qs) r d =
      let (same, r', d') = serve-Same id s q r d in
      let (same', r'') = serve_all-Same id (serve scans api q s).1 qs r' d' in
      (
        record {
          cells = same'.cells ∙ same.cells;
          pins = same'.pins ∙ same.pins;
          db = same'.db ∙ same.db;
        },
        r'',
      )

  -- What resolves a transaction, and what it does to the store.
  abbrev pub resolution : Request → Option (scans.Txn → api.Db → api.Db)
  resolution commit = some (λ t db. (api.commit t db).1)
  resolution discard = some api.rollback
  resolution free = some api.rollback
  resolution _ = none

  module _ (id : ℕ) (s : Seat) (t : scans.Txn) (h : s.handle ≡ some id)
      (l : (s.cells id).txn ≡ some t) (sound : (s.cells id).poisoned ≡ false) where
    take-live :
        (k : Option ℕ)
        → Txn.take scans api id (record s { handle = k })
          ≡ (ok t, Txn.hold scans api id none (record s { handle = k }))
    unfolding Txn.take Txn.hold
    take-live k = simp (sound, l)

    abbrev applied : Option (scans.Txn → api.Db → api.Db) → api.Db
    applied none = s.db
    applied (some g) = g t s.db

    hold-IsResolved :
        (s' : Seat) → s'.cells ≡ (Txn.hold scans api id none s).cells → IsResolved scans api id s'
    unfolding Txn.hold
    hold-IsResolved s' e = rw e (record { empty = ground arith; sound = ground (arith, sound) })

    -- The call that resolves a live transaction, and what it leaves.
    serve-live :
        (q : Request) (f : scans.Txn → api.Db → api.Db)
        → resolution q ≡ some f
        → ((serve scans api q s).1.db ≡ f t s.db)
          × IsResolved scans api id (serve scans api q s).1
          × Settled id (serve scans api q s).1
    unfolding serve Txn.commit Txn.discard Txn.free_txn Txn.unbox Txn.roll_back
    serve-live commit f e =
        rw (on_txn-handle scans api id s h, take-live none)
          (ap applied e, hold-IsResolved _ refl, gone refl)
    serve-live discard f e =
        rw (on_txn-handle scans api id s h, take-live s.handle, take-live s.handle)
          (ap applied e, hold-IsResolved _ refl, held h)
    serve-live free f e =
        rw (on_txn-handle scans api id s h, take-live none, take-live none)
          (ap applied e, hold-IsResolved _ refl, gone refl)
    serve-live (get_borrowed key key_len outs) f e = cc
    serve-live (has key key_len found) f e = cc
    serve-live (set key key_len value value_len) f e = cc
    serve-live (delete key key_len) f e = cc
    serve-live (iter opts out) f e = cc

    -- A live transaction is resolved once. After the commit, discard or free that resolves it, whatever its
    -- status, any further calls on the handle leave the store as that one call left it, and the cell that
    -- the handle and its iterators share stays without a transaction.
    pub serve_all-resolution :
        (q : Request) (f : scans.Txn → api.Db → api.Db) (qs : List Request)
        → resolution q ≡ some f
        → ((serve_all scans api (q ∷ qs) s).db ≡ f t s.db)
          × IsResolved scans api id (serve_all scans api (q ∷ qs) s)
    unfolding serve_all
    serve_all-resolution q f qs e =
        let (same_db, r, d) = serve-live q f e in
        let (same, r') = serve_all-Same id (serve scans api q s).1 qs r d in (same.db ∙ same_db, r')
