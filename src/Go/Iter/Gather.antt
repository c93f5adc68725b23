-- ===== src/Go/Iter/Gather.antt =====
-- What a caller of iter.go gathers: `Next` or `Seek`, and `Key` and `Value` after it.
use go_regolith.Base.{
  ℕ, zero, suc, ◌≡◌, refl, ap, Option, none, some, Bool, true, false, List, [], ◌∷◌, if◌then◌else◌,
}
use go_regolith.Failure.{Bytes}
use go_regolith.Iter.Machine.{Scans, TxnInner}
use go_regolith.Go.Errors.{GoError}
use go_regolith.Go.Iter.{GoIter, next, seek, key, value}

module _ (scans : Scans) (cells : ℕ → TxnInner scans.Txn) where
  -- What `next` is true for: the key, and the value without an error.
  abbrev visited :
      Option Bytes
      → (Bytes × Option GoError)
      → Option (List (Bytes × Bytes) × Option GoError)
      → Option (List (Bytes × Bytes) × Option GoError)
  visited none v more = none
  visited (some k) (v, some e) more = some ([], some e)
  visited (some k) (v, none) none = none
  visited (some k) (v, none) (some (es, e)) = some ((k, v) ∷ es, e)

  -- What a caller gathers that looks at `Key` and `Value` where a call took it, and goes on from there.
  unfoldable pub from_here :
      (GoIter scans → Option (List (Bytes × Bytes) × Option GoError))
      → Option ((Bool × Option GoError) × GoIter scans)
      → Option (List (Bytes × Bytes) × Option GoError)
  unfolding key value
  from_here go_on none = none
  from_here go_on (some ((more, e), it)) =
      let (v, it') = value scans it in
      let others = go_on it' in if more then visited (key scans it) v others else some ([], e)

  -- What a caller gathers until `Next` is false, and the error that it is false with; `none` if the Go code
  -- panics or `Next` is still true after so many rounds.
  unfoldable pub gather : ℕ → GoIter scans → Option (List (Bytes × Bytes) × Option GoError)
  unfolding from_here next
  gather zero it = none
  gather (suc rounds) it = from_here (gather rounds) (next scans cells false it)

  -- The same, after a `Seek`.
  unfoldable pub gather_from :
      Bytes → ℕ → GoIter scans → Option (List (Bytes × Bytes) × Option GoError)
  unfolding from_here seek
  gather_from target rounds it = from_here (gather rounds) (seek scans cells target false it)

  pub from_here-more :
      (go_on : GoIter scans → Option (List (Bytes × Bytes) × Option GoError))
      (it it' : GoIter scans) (k v : Bytes) (es : List (Bytes × Bytes)) (failure : Option GoError)
      → key scans it ≡ some k
      → value scans it ≡ ((v, none), it')
      → go_on it' ≡ some (es, failure)
      → from_here go_on (some ((true, none), it)) ≡ some ((k, v) ∷ es, failure)
  unfolding from_here
  from_here-more go_on it it' k v es failure is_key is_value others =
      rw (is_key, ap (λ r. r.0) is_value, ap (λ r. r.1) is_value, others) refl

  pub from_here-failed :
      (go_on : GoIter scans → Option (List (Bytes × Bytes) × Option GoError)) (it : GoIter scans)
      (e : GoError)
      → from_here go_on (some ((false, some e), it)) ≡ some ([], some e)
  unfolding from_here
  from_here-failed go_on it e = refl
