-- ===== src/Db/Opening.antt =====
-- Opening a store with ffi/src/db.rs: what is refused before the engine is asked.
use go_regolith.Base.{ℕ, ◌≡◌, refl, inl, inr, Option-cases, Option, some, Bool, true, false}
use go_regolith.Base.Text.{codes}
use go_regolith.Failure.{Bytes, Failure, invalid_arg, err}
use go_regolith.Batch.{WriteBatch}
use go_regolith.Options.{RegolithOptions, ResolvedOptions, options_from}
use go_regolith.Iter.Bounds.{InPointer, in_bytes}
use go_regolith.Iter.Machine.{Scans}
use go_regolith.Txn.{Transactions}
use go_regolith.Db
use go_regolith.Db.{Databases}
use go_regolith.Db.Utf8.{from_utf8}

module _ {Others : Type 0} (usize_max : ℕ) (defaults : ResolvedOptions Others) (scans : Scans)
    (txns : Transactions scans.Txn) (batches : WriteBatch)
    (api : Databases scans txns batches Others) where
  -- Options that do not resolve are refused, whatever the path and the out-param are, with their own
  -- failure where these are in order; no handle is written, and what is on disk is left as it was.
  pub open_with_options-options_from :
      (path : InPointer) (path_len : ℕ) (opts : Option RegolithOptions) (out : Bool) (f : Failure)
      (s : Option txns.Db × api.Disk)
      → options_from usize_max defaults opts ≡ err f
      → (g : Failure) × (Db.open_with_options usize_max defaults scans txns batches api path
            path_len opts out s
          ≡ (err g, s))
        × (out ≡ true
            → (bytes text : Bytes) → in_bytes path path_len ≡ some bytes
            → from_utf8 bytes ≡ some text
            → g ≡ f)
  unfolding Db.open_with_options
  open_with_options-options_from path path_len opts false f s e =
      (invalid_arg (codes "null out-param"), refl, λ h. absurd cc)
  open_with_options-options_from path path_len opts true f s e =
      elim (Option-cases (in_bytes path path_len)) [
        | inl p ↦ (invalid_arg (codes "null path"), rw p refl, λ h bytes text q u. absurd cc)
        | inr (bytes, p) ↦ elim (Option-cases (from_utf8 bytes)) [
          | inl u ↦ (
            invalid_arg (codes "path is not valid utf-8"),
            rw (p, u) refl,
            λ h bytes' text q v. absurd cc,
          )
          | inr (text, u) ↦ (f, rw (p, u, e) refl, λ h bytes' text' q v. refl)
        ]
      ]
