-- ===== src/Go/Opening/Runs.antt =====
-- Opening a store of the log of Go/Runs, and the theorems at concrete inputs.
use go_regolith.Base.{
  not, ◌==◌, ◌≡◌, ◌⊎◌, refl, none, some, true, inr, List, [], ◌∷◌, All, arith, false,
}
use go_regolith.Failure.{Bytes, ok}
use go_regolith.Batch.{delete, u64_max}
use go_regolith.Batch.Sizing.{record_len, op_record_len}
use go_regolith.Guard.Report.{IsOrdered}
use go_regolith.Options.{options_from, immediate, serializable, uncompressed}
use go_regolith.Options.Go.{GoOptions, to_c}
use go_regolith.Options.Settings.{Settings, in_go, applied, IsHeld}
use go_regolith.Options.RoundTrip.{options_from-to_c}
use go_regolith.Db.Utf8.{from_utf8}
use go_regolith.Go.Errors.{SameCells}
use go_regolith.Go.Model
use go_regolith.Go.Model.{Request, IsServable, model_all, done, Model}
use go_regolith.Go.Opening
use go_regolith.Go.Opening.{World, zero_options}
use go_regolith.Go.Opening.Asks
use go_regolith.Go.Opening.Asks.{open_with-in_go}
use go_regolith.Go.Opening.Refuses
use go_regolith.Go.Opening.Refuses.{open_with-Refuses}
use go_regolith.Go.Opening.Session
use go_regolith.Go.Opening.Session.{KeepsDisk, reopened-perform_all}
use go_regolith.Go.Runs.{Log, find, scans, txns, batches, api, defaults, laws, no_objects, a_key}

-- The README's settings.
abbrev pub tuned : Settings
tuned = record {
  write_buffer_size = none;
  block_cache_size = none;
  max_background_compactions = some 0;
  transaction_keys_inline = some 8;
  compression = some uncompressed;
  durability = some immediate;
  isolation = some serializable;
}

pub tuned-IsHeld : IsHeld u64_max tuned
tuned-IsHeld = record {
  write_buffer_size = tt;
  block_cache_size = tt;
  max_background_compactions = omega arith;
  transaction_keys_inline = omega arith;
}

abbrev untuned : Settings
untuned = record {
  write_buffer_size = none;
  block_cache_size = none;
  max_background_compactions = none;
  transaction_keys_inline = none;
  compression = none;
  durability = none;
  isolation = none;
}

untuned-IsHeld : IsHeld u64_max untuned
untuned-IsHeld = record {
  write_buffer_size = tt;
  block_cache_size = tt;
  max_background_compactions = tt;
  transaction_keys_inline = tt;
}

in_go-untuned : in_go untuned ≡ zero_options
unfolding in_go
in_go-untuned = refl

options_from-to_c_example :
    (c : _) × (to_c (in_go tuned) ≡ inr c)
    × (options_from u64_max defaults (some c) ≡ ok (applied tuned defaults))
options_from-to_c_example = options_from-to_c u64_max defaults tuned tuned-IsHeld

abbrev pub path : Bytes
path = b'd' ∷ b'b' ∷ []

pub path_is_utf8 : from_utf8 path ≡ some path
unfolding from_utf8
path_is_utf8 = refl

abbrev stored_entries : Log
stored_entries = (a_key, some (b'1' ∷ [])) ∷ []

abbrev world : World u64_max defaults scans txns batches api
world = record { errors = no_objects; pins = no_objects; disk = stored_entries }

abbrev ordered : IsOrdered no_objects
ordered = record { ahead = λ p l. refl }

open_with-in_go_example :
    (errors : _) × Asks.Gives u64_max defaults scans txns batches api path tuned world errors
      (Opening.open_with u64_max defaults scans txns batches api path (in_go tuned) world)
    × SameCells no_objects errors
    × IsOrdered errors
open_with-in_go_example =
    open_with-in_go u64_max defaults scans txns batches api path tuned world ordered path_is_utf8
      tuned-IsHeld

-- A path that no text has, and an isolation level that no constant names.
abbrev bad_level : GoOptions
bad_level = record zero_options { isolation = 5 }

open_with-Refuses_example :
    Refuses.Asks u64_max defaults scans txns batches api (0xFF ∷ []) bad_level
    ⊎ Refuses.Refuses u64_max defaults scans txns batches api (0xFF ∷ []) bad_level world
open_with-Refuses_example =
    open_with-Refuses u64_max defaults scans txns batches api (0xFF ∷ []) world ordered bad_level

abbrev disks : KeepsDisk u64_max defaults scans txns batches api laws
unfolding laws
disks = record {
  stored = λ disk q. find q disk;
  accepts = λ path options. not (options.write_buffer_size == 0);
  in_use = λ disk. false;
  opens = λ path options disk accepted unused. (disk, refl, refl);
  level_is = λ level db. refl;
  close_stores = λ db disk. (refl, refl);
}

abbrev requests : List Request
requests =
    Model.get a_key ∷ Model.put (b'b' ∷ []) (b'2' ∷ []) ∷ Model.write (delete a_key ∷ []) ∷ []

requests-IsServable : All (IsServable u64_max laws.limits) requests
unfolding record_len op_record_len laws
requests-IsServable =
    (tt, (((omega arith, omega arith), omega arith), (((omega arith, tt), (omega arith, tt)), tt)))

world-Tidy :
    Session.Tidy u64_max defaults scans txns batches api laws disks no_objects no_objects no_objects
      no_objects
world-Tidy = record {
  errors_same = λ p. refl;
  errors_ordered = ordered;
  pins_same = λ p. refl;
  pins_ordered = ordered;
}

abbrev before : Model
before = record { is_open = true; map = λ q. find q stored_entries }

still_open : (model_all requests before).1.is_open ≡ true
unfolding model_all record_len op_record_len
still_open = refl

reopened-perform_all_example :
    (first : Session.Opens u64_max defaults scans txns batches api laws disks no_objects no_objects
      path tuned world
      (λ q. find q stored_entries))
    × ((Session.perform_all u64_max defaults scans txns batches api requests first.handle).0
        ≡ (model_all requests before).0)
    × ((Session.perform u64_max defaults scans txns batches api Model.close
          (Session.perform_all u64_max defaults scans txns batches api requests first.handle).1).0
        ≡ done)
    × Session.Opens u64_max defaults scans txns batches api laws disks no_objects no_objects path
        untuned
        (Session.world_of u64_max defaults scans txns batches api
          (Session.perform u64_max defaults scans txns batches api Model.close
            (Session.perform_all u64_max defaults scans txns batches api requests
              first.handle).1).1)
        (model_all requests before).1.map
unfolding disks laws applied
reopened-perform_all_example =
    reopened-perform_all u64_max defaults scans txns batches api laws disks no_objects no_objects
      path tuned untuned world requests (omega arith) path_is_utf8 tuned-IsHeld untuned-IsHeld refl
      refl refl world-Tidy requests-IsServable still_open
