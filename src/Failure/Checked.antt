-- ===== src/Failure/Checked.antt =====
-- Results that are a value or an invalid argument with its reason, as those of the decoders are.
use go_regolith.Base.{◌≡◌, refl, Bool, true, false, if◌then◌else◌}
use go_regolith.Failure.{Bytes, Failure, Result, ok, err, panic, invalid_arg, ◌>>=◌}

pub record IsRefusal (f : Failure) : Type 0 where
  pub reason : Bytes
  pub is_invalid_arg : f ≡ invalid_arg reason

-- A result that is a value or an invalid argument with its reason.
abbrev pub IsChecked {ℓ} : {A : Type ℓ} → Result A → Type 0
IsChecked (ok a) = Unit {0}
IsChecked (err f) = IsRefusal f
IsChecked (panic p) = ⊥

pub IsChecked-bind {ℓ κ} :
    {A : Type ℓ} {B : Type κ} (m : Result A) (f : A → Result B)
    → IsChecked m
    → ((a : A) → IsChecked (f a))
    → IsChecked (m >>= f)
IsChecked-bind (ok a) f h k = k a
IsChecked-bind (err e) f h k = h
IsChecked-bind (panic p) f h k = h

pub IsChecked-if {ℓ} :
    {A : Type ℓ} (b : Bool) (m n : Result A)
    → IsChecked m
    → IsChecked n
    → IsChecked (if b then m else n)
IsChecked-if true m n hm hn = hm
IsChecked-if false m n hm hn = hn

pub refusal : (reason : Bytes) → IsRefusal (invalid_arg reason)
refusal reason = record { reason = reason; is_invalid_arg = refl }
