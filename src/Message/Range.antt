-- ===== src/Message/Range.antt =====
-- The values that a message of src/processMsg.c can give to the variables that have a range.
pub mod Media
pub mod Rows
pub mod Whole
use avserver.Base.{◌≡◌, ◌⊎◌, ℤ, pos, ◌≤ℤ◌, Option, none, some}
use avserver.Message.Vars.{UbsField, OtherField, Num}
use avserver.Message.Row.{Row}

-- The frame rates, the bit rates, the power frequency and the switches.
unfoldable pub InRange : Num → ℤ → Type 0
InRange (Num.ubs _ _ UbsField.frame_rate) w = (pos 4 ≤ℤ w) × (w ≤ℤ pos 150)
InRange (Num.ubs _ _ UbsField.bit_rate) w = (pos 100000 ≤ℤ w) × (w ≤ℤ pos 5000000)
InRange (Num.other OtherField.fw) w = (w ≡ pos 50) ⊎ (w ≡ pos 60)
InRange (Num.other OtherField.cloud_enable) w = (w ≡ pos 0) ⊎ (w ≡ pos 1)
InRange (Num.other OtherField.rec_enable) w = (w ≡ pos 0) ⊎ (w ≡ pos 1)
InRange _ w = Unit {0}

-- What is stored, if anything, is in range.
unfoldable pub KeptInRange : Num → Option ℤ → Type 0
unfolding InRange
KeptInRange x none = Unit {0}
KeptInRange x (some w) = InRange x w

unfoldable pub IsBounded : Row → Type 0
unfolding KeptInRange
IsBounded (Row.num r) = (v : ℤ) → KeptInRange r.var (r.kept v)
IsBounded (Row.txt _) = Unit {0}
IsBounded (Row.fixed _ _) = Unit {0}
IsBounded Row.skip = Unit {0}
