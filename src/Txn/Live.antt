-- ===== src/Txn/Live.antt =====
-- A call on a transaction that is live.
use go_regolith.Base.{ℕ, ◌≡◌, ap, some, false}
use go_regolith.Failure.{Result, ok, err, panic}
use go_regolith.Iter.Machine.{Scans, TxnInner, live}
use go_regolith.Txn

module _ (scans : Scans) (api : Txn.Transactions scans.Txn) where
  abbrev Seat : Type 0
  Seat = Txn.Seat scans api

  live-ok :
      (c : TxnInner scans.Txn) (t : scans.Txn) → c.txn ≡ some t → c.poisoned ≡ false → live c ≡ ok t
  unfolding live
  live-ok c t l sound = rw (sound, l)

  pub with_live-live :
      {A : Type 0} (id : ℕ) (t : scans.Txn) (s : Seat) (body : scans.Txn → Txn.Call A × scans.Txn)
      → (s.cells id).txn ≡ some t
      → (s.cells id).poisoned ≡ false
      → Txn.with_live scans api id body s
        ≡ (Txn.asked (body t).0, Txn.hold scans api id (some (body t).1) s)
  unfolding Txn.with_live
  with_live-live id t s body l sound =
      ap
        (λ (r : Result scans.Txn). elim r [
          | ok t' ↦ (Txn.asked (body t').0, Txn.hold scans api id (some (body t').1) s)
          | err f ↦ (err f, s)
          | panic p ↦ (panic p, s)
        ])
        (live-ok (s.cells id) t l sound)
