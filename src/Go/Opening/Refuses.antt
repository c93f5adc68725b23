-- ===== src/Go/Opening/Refuses.antt =====
-- When `OpenWith` asks the engine, and what it does otherwise.
use go_regolith.Base.{
  ℕ, ◌≡◌, refl, sym, ap, ◌∙◌, ◌⊎◌, inl, inr, Option, none, some, true, length, Option-cases,
}
use go_regolith.Failure.{Bytes, Failure, err, Result-cases, invalid_arg}
use go_regolith.Failure.Checked.{IsChecked, IsRefusal, refusal}
use go_regolith.Base.Text.{codes}
use mathlib.Core.Path.{subst}
use go_regolith.Exec.{Exec}
use go_regolith.Guard.{guard, strip_nuls}
use go_regolith.Guard.Report.{IsOrdered}
use go_regolith.Batch.{WriteBatch}
use go_regolith.Options.{ResolvedOptions, RegolithOptions, options_from}
use go_regolith.Options.Go.{GoOptions, to_c}
use go_regolith.Options.Settings.{Settings, in_go, IsHeld}
use go_regolith.Options.Filled.{struct_of, to_c-in_go}
use go_regolith.Options.RoundTrip.{options_from-IsHeld}
use go_regolith.Options.Refused.{to_c-cases, options_from-IsChecked}
use go_regolith.Iter.Machine.{Scans}
use go_regolith.Txn.{Transactions}
use go_regolith.Db
use go_regolith.Db.{Databases}
use go_regolith.Db.Utf8.{from_utf8, from_utf8-eq}
use go_regolith.Db.Calls.{regolith_db_open_with_options}
use go_regolith.Go.Errors.{GoError, err_invalid_argument, error_of, classify, SameCells}
use go_regolith.Go.Store.{finish, byte_ptr}
use go_regolith.Go.Finish.{finish-guard, in_bytes-byte_ptr}
use go_regolith.Go.Opening
use go_regolith.Go.Opening.{World}

module _ {Others : Type 0} (usize_max : ℕ) (defaults : ResolvedOptions Others) (scans : Scans)
    (txns : Transactions scans.Txn) (batches : WriteBatch)
    (api : Databases scans txns batches Others) where
  abbrev Worlds : Type 0
  Worlds = World usize_max defaults scans txns batches api

  -- The opening ended in an invalid argument, and what is on disk, the value handles and the error objects
  -- that are alive are as they were.
  pub record Refuses (path : Bytes) (opts : GoOptions) (w : Worlds) : Type 0 where
    pub error : GoError
    pub after : Worlds
    pub refused :
        Opening.open_with usize_max defaults scans txns batches api path opts w ≡ inl (error, after)
    pub invalid : error.sentinel ≡ err_invalid_argument
    pub disk_same : after.disk ≡ w.disk
    pub pins_same : after.pins ≡ w.pins
    pub errors_same : SameCells w.errors after.errors
    pub errors_ordered : IsOrdered after.errors

  -- What the engine can be asked for: settings whose numbers the platform's usize holds, on a path of UTF-8.
  pub record Asks (path : Bytes) (opts : GoOptions) : Type 0 where
    pub settings : Settings
    pub spelled : opts ≡ in_go settings
    pub held : IsHeld usize_max settings
    pub utf8 : from_utf8 path ≡ some path

  module _ (path : Bytes) (w : Worlds) (o : IsOrdered w.errors) where
    abbrev body : RegolithOptions → Exec (Option txns.Db × api.Disk) (Unit {0})
    body c =
        Db.open_with_options usize_max defaults scans txns batches api (byte_ptr path) (length path)
          (some c) true

    -- A call whose body fails with an invalid argument and changes nothing.
    call_refused :
        (opts : GoOptions) (c : RegolithOptions) (f : Failure)
        → to_c opts ≡ inr c
        → IsRefusal f
        → body c (none, w.disk) ≡ (err f, (none, w.disk))
        → Refuses path opts w
    unfolding Opening.open_with regolith_db_open_with_options error_of classify
    call_refused opts c f filled r e =
        let (errors, q, same, ordered) =
          finish-guard (body c) (record { errors = w.errors; inner = (none, w.disk) }) o in
        let q' : finish (guard true (body c) (record { errors = w.errors; inner = (none, w.disk) }))
            ≡ (
              (
                none,
                some (record { sentinel = err_invalid_argument; message = strip_nuls r.reason }),
              ),
              record { errors = errors; inner = (none, w.disk) },
            ) =
          q ∙ rw (e, r.is_invalid_arg) refl in
        record {
          error = record { sentinel = err_invalid_argument; message = strip_nuls r.reason };
          after = record { errors = errors; pins = w.pins; disk = w.disk };
          refused = rw (Opening.open_with, filled) (rw q' refl);
          invalid = refl;
          disk_same = refl;
          pins_same = refl;
          errors_same = same;
          errors_ordered = ordered;
        }

    -- What `options_from` makes of the struct decides.
    settings_cases :
        (s : Settings) (opts : GoOptions) → opts ≡ in_go s → Asks path opts ⊎ Refuses path opts w
    unfolding Db.open_with_options
    settings_cases s opts e =
        let filled : to_c opts ≡ inr (struct_of s) = rw e (to_c-in_go s) in
        elim (Option-cases (from_utf8 path)) [
          | inl u ↦ inr (
              call_refused opts (struct_of s) (invalid_arg (codes "path is not valid utf-8")) filled
                (refusal _) (rw (in_bytes-byte_ptr path, u) refl))
          | inr (text, u) ↦
              elim (Result-cases (options_from usize_max defaults (some (struct_of s)))) [
                | inl (r, d) ↦ inl (record {
                  settings = s;
                  spelled = e;
                  held = options_from-IsHeld usize_max defaults r s d;
                  utf8 = u ∙ ap some (sym (from_utf8-eq path text u));
                })
                | inr (inl (f, d)) ↦ inr (
                    call_refused opts (struct_of s) f filled
                      (subst IsChecked d
                        (options_from-IsChecked usize_max defaults (some (struct_of s))))
                      (rw (in_bytes-byte_ptr path, u, d) refl))
                | inr (inr (p, d)) ↦ absurd (
                    subst IsChecked d
                      (options_from-IsChecked usize_max defaults (some (struct_of s))))
              ]
        ]

    -- Whatever path and options a caller of `OpenWith` gives, where no error object is numbered from the heap's
    -- next number on: either the options are settings, spelled with the constants of options.go, whose
    -- numbers the platform's usize holds, and the path is UTF-8; or the opening is refused as an invalid
    -- argument, with what is on disk, the value handles and the error objects left as they were.
    pub open_with-Refuses : (opts : GoOptions) → Asks path opts ⊎ Refuses path opts w
    unfolding Opening.open_with
    open_with-Refuses opts = elim (to_c-cases opts) [
      | inl (s, e) ↦ settings_cases s opts e
      | inr r ↦ inr (record {
        error = r.error;
        after = w;
        refused = rw (Opening.open_with, r.refused) refl;
        invalid = r.invalid;
        disk_same = refl;
        pins_same = refl;
        errors_same = λ p. refl;
        errors_ordered = o;
      })
    ]
