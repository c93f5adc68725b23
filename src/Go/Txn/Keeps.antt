-- ===== src/Go/Txn/Keeps.antt =====
-- Which bodies of ffi/src/txn.rs leave the handle as it was, and which leave none.
use go_regolith.Base.{
  ℕ, ◌≡◌, refl, ◌∙◌, inl, inr, Bool-cases, Option-cases, Option, none, some, Bool, true, false,
}
use go_regolith.Failure.{Bytes, Failure, Result, ok, err, panic, Result-cases}
use go_regolith.Exec.{Exec, require, ◌>>=◌, continue}
use go_regolith.Guard.{Heap, Host, guard, settle, report}
use go_regolith.Iter.Bounds.{RegolithIterOptions, InPointer, in_bytes}
use go_regolith.Iter.Machine.{Scans, live}
use go_regolith.Txn
use go_regolith.Txn.{Transactions}
use go_regolith.Go.Store.{finish}

report-inner {ℓ κ} :
    {S : Type ℓ} {A : Type κ} (writable : Bool) (status : ℕ) (detail : Option Bytes)
    (out : Option A) (errors : Heap Bytes) (s : S)
    → (report writable status detail out errors s).1.inner ≡ s
unfolding report
report-inner true status none out errors s = refl
report-inner true status (some d) out errors s = refl
report-inner false status none out errors s = refl
report-inner false status (some d) out errors s = refl

settle-inner {ℓ κ} :
    {S : Type ℓ} {A : Type κ} (writable : Bool) (errors : Heap Bytes) (r : Result A) (s : S)
    → (settle writable errors r s).1.inner ≡ s
unfolding settle
settle-inner writable errors (ok a) s = report-inner writable _ _ _ errors s
settle-inner writable errors (err f) s = report-inner writable _ _ _ errors s
settle-inner writable errors (panic p) s = report-inner writable _ _ _ errors s

module _ {ℓ κ} {S : Type ℓ} {A : Type κ} (body : Exec S A) (host : Host S) where
  pub guard-inner : (writable : Bool) → (guard writable body host).1.inner ≡ (body host.inner).1
  unfolding guard
  guard-inner writable = settle-inner writable host.errors (body host.inner).0 (body host.inner).1

  pub finish-inner : (finish (guard true body host)).1.inner ≡ (body host.inner).1
  unfolding finish
  finish-inner = guard-inner true

module _ (scans : Scans) (api : Transactions scans.Txn) where
  abbrev pub Seat : Type 0
  Seat = Txn.Seat scans api

  -- A body that leaves the handle as it was.
  pub record Keeps {A : Type 0} (m : Exec Seat A) : Type 0 where
    pub same : (s : Seat) → (m s).1.handle ≡ s.handle

  Keeps-continue :
      {A B : Type 0} (k : A → Exec Seat B) (r : Result A) (s : Seat)
      → ((a : A) → Keeps (k a))
      → (continue r k s).1.handle ≡ s.handle
  Keeps-continue k (ok a) s h = (h a).same s
  Keeps-continue k (err f) s h = refl
  Keeps-continue k (panic p) s h = refl

  Keeps-bind :
      {A B : Type 0} (m : Exec Seat A) (k : A → Exec Seat B)
      → Keeps m
      → ((a : A) → Keeps (k a))
      → Keeps (m >>= k)
  Keeps-bind m k h g = record { same = λ s. Keeps-continue k (m s).0 (m s).1 g ∙ h.same s }

  Keeps-require : {A : Type 0} (o : Option A) (f : Failure) → Keeps (require o f)
  Keeps-require none f = record { same = λ s. refl }
  Keeps-require (some a) f = record { same = λ s. refl }

  Keeps-with_live :
      {A : Type 0} (id : ℕ) (body : scans.Txn → Txn.Call A × scans.Txn)
      → Keeps (Txn.with_live scans api id body)
  unfolding Txn.with_live Txn.hold
  Keeps-with_live id body = record {
    same = λ s. elim (Result-cases (live (s.cells id))) [
      | inl (t, e) ↦ rw (Txn.with_live, e) refl
      | inr (inl (f, e)) ↦ rw (Txn.with_live, e) refl
      | inr (inr (p, e)) ↦ rw (Txn.with_live, e) refl
    ];
  }

  Keeps-writable : (id : ℕ) → Keeps (Txn.writable scans api id)
  unfolding Txn.writable
  Keeps-writable id = record {
    same = λ s. elim (Bool-cases (s.cells id).readonly) [ inl y ↦ rw y refl | inr n ↦ rw n refl ];
  }

  Keeps-take : (id : ℕ) → Keeps (Txn.take scans api id)
  unfolding Txn.take Txn.hold
  Keeps-take id = record {
    same = λ s. elim (Bool-cases (s.cells id).poisoned) [
      | inl y ↦ rw (Txn.take, y) refl
      | inr n ↦ elim (Option-cases (s.cells id).txn) [
        | inl e ↦ rw (Txn.take, n, e) refl
        | inr (t, e) ↦ rw (Txn.take, n, e) refl
      ]
    ];
  }

  Keeps-on_txn :
      {A : Type 0} (f : ℕ → Exec Seat A)
      → ((id : ℕ) → Keeps (f id))
      → Keeps (Txn.on_txn scans api f)
  unfolding Txn.on_txn
  Keeps-on_txn f h = record {
    same = λ s. elim (Option-cases s.handle) [
      | inl e ↦ rw e refl
      | inr (id, e) ↦ rw e ((h id).same (record s { handle = some id }))
    ];
  }

  abbrev pub all : Bool × Bool × Bool
  all = (true, true, true)

  pub get_borrowed-Keeps : (k : InPointer) (n : ℕ) → Keeps (Txn.get_borrowed scans api k n all)
  unfolding Txn.get_borrowed Txn.lend
  get_borrowed-Keeps k n = Keeps-on_txn _ (λ id.
      Keeps-bind _ _ (Keeps-require (in_bytes k n) _) (λ key.
        Keeps-bind _ _ (Keeps-with_live id _)
          (λ found. Keeps-bind _ _ (Keeps-require found _) (λ slice. record { same = λ s. refl }))))

  pub has-Keeps : (k : InPointer) (n : ℕ) → Keeps (Txn.has scans api k n true)
  unfolding Txn.has
  has-Keeps k n = Keeps-on_txn _ (λ id.
      Keeps-bind _ _ (Keeps-require (in_bytes k n) _)
        (λ key. Keeps-bind _ _ (Keeps-with_live id _) (λ found. record { same = λ s. refl })))

  pub set-Keeps :
      (k : InPointer) (n : ℕ) (v : InPointer) (m : ℕ) → Keeps (Txn.set scans api k n v m)
  unfolding Txn.set
  set-Keeps k n v m = Keeps-on_txn _ (λ id. Keeps-bind _ _ (Keeps-writable id) (λ u.
      Keeps-bind _ _ (Keeps-require (Txn.both scans api (in_bytes k n) (in_bytes v m)) _)
        (λ kv. Keeps-with_live id _)))

  pub delete-Keeps : (k : InPointer) (n : ℕ) → Keeps (Txn.delete scans api k n)
  unfolding Txn.delete
  delete-Keeps k n = Keeps-on_txn _ (λ id.
      Keeps-bind _ _ (Keeps-writable id)
        (λ u. Keeps-bind _ _ (Keeps-require (in_bytes k n) _) (λ key. Keeps-with_live id _)))

  pub iter-Keeps : (o : Option RegolithIterOptions) → Keeps (Txn.iter scans api o true)
  unfolding Txn.iter
  iter-Keeps o = Keeps-on_txn _ (λ id. record { same = λ s. refl })

  -- Commit and free leave no handle, whatever their outcome.
  pub commit-handle : (s : Seat) → (Txn.commit scans api s).1.handle ≡ none
  unfolding Txn.commit Txn.on_txn Txn.unbox
  commit-handle s = elim (Option-cases s.handle) [
    | inl e ↦ rw e refl
    | inr (id, e) ↦ rw e (
        (Keeps-bind (Txn.take scans api id) _ (Keeps-take id)
            (λ t. record { same = λ s'. refl })).same
          (record s { handle = none }))
  ]

  pub free_txn-handle : (s : Seat) → (Txn.free_txn scans api s).1.handle ≡ none
  unfolding Txn.free_txn Txn.on_txn Txn.unbox Txn.roll_back
  free_txn-handle s = elim (Option-cases s.handle) [
    | inl e ↦ rw e refl
    | inr (id, e) ↦
        let freed : Seat = record s { handle = none } in
        rw e (elim (Result-cases (Txn.take scans api id freed).0) [
          | inl (t, q) ↦ rw q ((Keeps-take id).same freed)
          | inr (inl (f, q)) ↦ rw q ((Keeps-take id).same freed)
          | inr (inr (p, q)) ↦ rw q ((Keeps-take id).same freed)
        ])
  ]
