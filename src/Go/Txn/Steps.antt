-- ===== src/Go/Txn/Steps.antt =====
-- One call on a Go `Txn` that is not resolved, through Go, the C ABI and the engine, against Go/Txn/Overlay.
pub mod Reads
pub mod Writes
pub mod Ends
use go_regolith.Base.{ℕ, ◌≡◌, refl, sym, ap, ◌∙◌, some, Bool, true, false, List}
use go_regolith.Failure.{Bytes}
use go_regolith.Guard.{Heap, Host}
use go_regolith.Iter.Machine.{Scans, TxnInner}
use go_regolith.Txn.{Transactions}
use go_regolith.Txn.Calls.{}
use go_regolith.Batch.{RawOp}
use go_regolith.Go.Tidy.{Tidy}
use go_regolith.Go.Model.{Answer, Map}
use go_regolith.Go.Txn as GoSide
use go_regolith.Go.Txn.Handle.{Request, get, has, set, delete, new_iter, commit, discard}
use go_regolith.Go.Txn.Overlay.{Event, call, Overlay, overlay}
use go_regolith.Go.Txn.Bodies
use go_regolith.Go.Txn.Bodies.{KeepsWrites}
use go_regolith.Go.Txn.Serve
use go_regolith.Go.Txn.Serve.{is_live, is_resolved}

-- All but a discard, which frees the handle of a store that is closed too.
abbrev pub needs_store : Request → Bool
needs_store discard = false
needs_store _ = true

-- What a call finds: the transaction `t`, alive behind the handle, over a store that holds `db`.
pub record Found (scans : Scans) (api : Transactions scans.Txn) (e₀ p₀ : Heap Bytes) : Type 0 where
  pub id : ℕ
  pub cells : ℕ → TxnInner scans.Txn
  pub errors : Heap Bytes
  pub pins : Heap Bytes
  pub db : api.Db
  pub t : scans.Txn
  pub ro : Bool
  pub cell : cells id ≡ Bodies.alive scans api t ro
  pub tidy : Tidy e₀ p₀ errors pins

module _ (scans : Scans) (api : Transactions scans.Txn) (laws : KeepsWrites scans api)
    (e₀ p₀ : Heap Bytes) (at : Found scans api e₀ p₀) where
  open at use {id, cells, errors, pins, db, t, ro, cell, tidy}

  abbrev pub Seat : Type 0
  Seat = Bodies.Seat scans api

  abbrev pub GoTxn : Type 0
  GoTxn = Serve.GoTxn scans api

  abbrev pub here : Seat
  here = Bodies.seat scans api (some id) cells pins db

  abbrev pub host : Host Seat
  host = record { errors = errors; inner = here }

  abbrev pub g : GoTxn
  g = Serve.seated scans api id cells errors pins db

  abbrev pub s : Overlay
  s = Serve.found_by scans api laws e₀ p₀ ro t db

  abbrev pub Stands : GoTxn → Overlay → Type 0
  Stands = Serve.Stands scans api laws e₀ p₀

  abbrev pub perform : Event api.Db → GoTxn → Answer × GoTxn
  perform = Serve.perform scans api

  abbrev pub specified : Bool → Event api.Db → Overlay → Answer × Overlay
  specified = overlay laws.contents

  -- The answer is the overlay's, and what is left stands for what is left of it, for some outcome of the
  -- commit, if it is one.
  abbrev pub Meets : Event api.Db → Type 0
  Meets q =
      (won : Bool) × ((perform q g).0 ≡ (specified won q s).0)
      × Stands (perform q g).1 (specified won q s).1

  pub lands :
      (won : Bool) (q : Event api.Db) (a : Answer) (g' : GoTxn) (s' : Overlay)
      → perform q g ≡ (a, g')
      → specified won q s ≡ (a, s')
      → Stands g' s'
      → Meets q
  lands won q a g' s' e m stands = (won, ap (λ r. r.0) e ∙ sym (ap (λ r. r.0) m), rw (e, m) stands)

  unchanged : Stands g s
  unchanged = is_live id cells errors pins db t ro refl cell refl tidy

  -- The transaction `t'` is behind the handle.
  pub kept :
      (t' : scans.Txn) (errors' pins' : Heap Bytes) (ws : List RawOp)
      → laws.base t' ≡ laws.base t
      → laws.writes t' ≡ ws
      → Tidy e₀ p₀ errors' pins'
      → Stands
          (Serve.seated scans api id
            (Bodies.held scans api id cells pins db t ro cell t')
            errors'
            pins'
            db)
          (record s { writes = ws })
  kept t' errors' pins' ws eb ew tidy' =
      let made : Map → List RawOp → Overlay = λ b w. record {
        live = true;
        readonly = ro;
        base = b;
        writes = w;
        store = laws.contents db;
      } in
      is_live id _ errors' pins' db t' ro refl
        (Bodies.held-alive scans api id cells pins db t ro cell t')
        (ap (λ b. made b ws) (sym eb) ∙ ap (made (laws.base t')) (sym ew)) tidy'

  -- What a method makes of its call.
  abbrev ended : {A B : Type 0} → (A → B) → (B → Answer) → A × Host Seat → Answer × GoTxn
  ended result as_answer (r, host) =
      (as_answer (result r), record { resolved = false; host = host })

  -- A store that is closed.
  pub refused_closed : (q : Request) → needs_store q ≡ true → Meets (call q true)
  unfolding Serve.perform GoSide.get GoSide.has GoSide.set GoSide.delete GoSide.new_iter
      GoSide.commit GoSide.begin overlay
  refused_closed (get k) n = (true, refl, unchanged)
  refused_closed (has k) n = (true, refl, unchanged)
  refused_closed (set k v) n = (true, refl, unchanged)
  refused_closed (delete k) n = (true, refl, unchanged)
  refused_closed (new_iter o) n = (true, refl, unchanged)
  refused_closed commit n = (true, refl, unchanged)
  refused_closed discard n = absurd cc
