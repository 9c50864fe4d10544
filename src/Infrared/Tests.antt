-- ===== src/Infrared/Tests.antt =====
-- An evening and a press of the reset key: examples of the theorems.
use avserver.Base.{
  true, ◌+◌, ◌/◌, ◌%◌, ℤ, pos, minus_one, ◌≡◌, refl, arith, false, List, [], ◌∷◌, length,
}
use avserver.Infrared.{InfradCtl, State, infrad_ctrl}
use avserver.Infrared.Night.{night_lasts}
use avserver.Infrared.Reset.{infrad_ctrl-resets}

abbrev auto : InfradCtl
auto = record {
  img_ctow_th = pos 50;
  img_wtoc_th = pos 200;
  status = pos 0;
  img_saturation = pos 128;
}

abbrev day : State
day = record { picture = record { lamp = false; saturation = pos 128 }; reset_stat = 2; resets = 0 }

-- Dark, failed, and twilight.
abbrev evening : List (ℤ × ℤ)
evening = (minus_one, pos 0) ∷ (pos 180, pos 0) ∷ []

night_lasts_example :
    let p = (infrad_ctrl auto ((pos 20, pos 0) ∷ evening) day).picture in
    (p.lamp ≡ true) × (p.saturation ≡ pos 0)
night_lasts_example =
    night_lasts auto (pos 20) (pos 0) evening day refl (omega arith) (omega arith)
      (omega arith, (omega arith, (omega arith, tt)))

infrad_ctrl-resets_example :
    let t = infrad_ctrl auto evening day in
    (t.resets ≡ 0 + (2 + length evening) / 3) × (t.reset_stat ≡ (2 + length evening) % 3)
infrad_ctrl-resets_example = infrad_ctrl-resets auto evening day (omega arith) (refl, (refl, tt))
