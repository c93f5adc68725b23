-- ===== src/Txn/Calls.antt =====
-- The entry points themselves: the bodies under `guard`, and the requests that a caller makes with one
-- handle, one after the other. `writable` says that `err` is not null.
use go_regolith.Base.{ℕ, Option, Bool, List, [], ◌∷◌}
use go_regolith.Exec.{Exec}
use go_regolith.Guard.{Host, Reply, guard, Lent}
use go_regolith.Guard.Report.{outcome_status}
use go_regolith.Iter.Bounds.{InPointer, RegolithIterOptions}
use go_regolith.Iter.Machine.{Scans, RegolithIter}
use go_regolith.Txn

pub data Request : Type 0 where
  get_borrowed : InPointer → ℕ → Bool × Bool × Bool → Request
  has : InPointer → ℕ → Bool → Request
  set : InPointer → ℕ → InPointer → ℕ → Request
  delete : InPointer → ℕ → Request
  iter : Option RegolithIterOptions → Bool → Request
  commit discard free : Request

module _ (scans : Scans) (api : Txn.Transactions scans.Txn) where
  abbrev pub Seat : Type 0
  Seat = Txn.Seat scans api

  unfoldable pub regolith_txn_get_borrowed :
      InPointer → ℕ → Bool × Bool × Bool → Bool → Host Seat → Reply Lent × Host Seat
  regolith_txn_get_borrowed key key_len outs writable =
      guard writable (Txn.get_borrowed scans api key key_len outs)

  unfoldable pub regolith_txn_has : InPointer → ℕ → Bool → Bool → Host Seat → Reply ℕ × Host Seat
  regolith_txn_has key key_len found writable = guard writable (Txn.has scans api key key_len found)

  unfoldable pub regolith_txn_set :
      InPointer → ℕ → InPointer → ℕ → Bool → Host Seat → Reply (Unit {0}) × Host Seat
  regolith_txn_set key key_len value value_len writable =
      guard writable (Txn.set scans api key key_len value value_len)

  unfoldable pub regolith_txn_delete :
      InPointer → ℕ → Bool → Host Seat → Reply (Unit {0}) × Host Seat
  regolith_txn_delete key key_len writable = guard writable (Txn.delete scans api key key_len)

  unfoldable pub regolith_txn_iter :
      Option RegolithIterOptions → Bool → Bool → Host Seat → Reply (RegolithIter scans) × Host Seat
  regolith_txn_iter opts out writable = guard writable (Txn.iter scans api opts out)

  unfoldable pub regolith_txn_commit : Bool → Host Seat → Reply (Unit {0}) × Host Seat
  regolith_txn_commit writable = guard writable (Txn.commit scans api)

  unfoldable pub regolith_txn_discard : Bool → Host Seat → Reply (Unit {0}) × Host Seat
  regolith_txn_discard writable = guard writable (Txn.discard scans api)

  unfoldable pub regolith_txn_free : Bool → Host Seat → Reply (Unit {0}) × Host Seat
  regolith_txn_free writable = guard writable (Txn.free_txn scans api)

  -- The status of a body's outcome, and the state that it left.
  abbrev pub ended : {A : Type 0} → Exec Seat A → Seat → ℕ × Seat
  ended body s = (outcome_status (body s).0, (body s).1)

  unfoldable pub serve : Request → Seat → ℕ × Seat
  serve (get_borrowed key key_len outs) = ended (Txn.get_borrowed scans api key key_len outs)
  serve (has key key_len found) = ended (Txn.has scans api key key_len found)
  serve (set key key_len value value_len) = ended (Txn.set scans api key key_len value value_len)
  serve (delete key key_len) = ended (Txn.delete scans api key key_len)
  serve (iter opts out) = ended (Txn.iter scans api opts out)
  serve commit = ended (Txn.commit scans api)
  serve discard = ended (Txn.discard scans api)
  serve free = ended (Txn.free_txn scans api)

  unfoldable pub serve_all : List Request → Seat → Seat
  unfolding serve
  serve_all [] s = s
  serve_all (r ∷ rs) s = serve_all rs (serve r s).1
