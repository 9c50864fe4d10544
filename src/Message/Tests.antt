-- ===== src/Message/Tests.antt =====
-- Messages of src/processMsg.c at concrete inputs.
use Prim.Native.String.{String}
use avserver.Base.{
  ℕ, zero, suc, ◌/◌, ◌%◌, ltb, Bool-cases, inr, ◌==◌, ◌+◌, ◌≡◌, refl, arith, ◌⊎◌, inl, ℤ, pos,
  negsuc, ◌*ℤ◌, true, false, if◌then◌else◌, some, List, [], ◌∷◌, ◌++◌,
}
use avserver.Message.Preset.{
  Preset, PresetConsts, Presets, get_prenamestring, is_nil, deal_ptz_preset, goto_ptz_preset,
}
use avserver.Message.Preset.Goto.{Fits, IsReached, set-goto}
use avserver.Message.Keys.{Key, ContextKey, RateKey, QuantKey, NetKey}
use avserver.Message.Vars.{AvFile, UbsField, OtherField, Num, Txt}
use avserver.Message.Session.{Consts, Value, Call, Shown, Session, put_num}
use avserver.Message.Encode.{row_rate}
use avserver.Message.Network.{row_net}
use avserver.Message.Process.{handle, start, finish, process_msg}
use avserver.Message.Filed.{file_of, file_of_txt, is_passing, is_passing_txt}
use avserver.Message.Written.{written, finish-written}
use avserver.Message.Kept.{IsDefault}
use avserver.Message.Lossless.{IsWritten, process_msg-lossless}
use avserver.Message.Range.{InRange}
use avserver.Message.Range.Whole.{process_msg-InRange}
use avserver.Message.Trip.{as_get}
use avserver.Message.Trip.Plain.{is_plain, set-get}

abbrev numbers : Num → ℤ
numbers (Num.ubs _ _ UbsField.frame_rate) = pos 25
numbers (Num.ubs _ _ UbsField.bit_rate) = pos 2000000
numbers (Num.other OtherField.fw) = pos 50
numbers _ = pos 0

abbrev consts : Consts
consts = record {
  t_set = pos 1;
  t_get = pos 0;
  main_stream_chn = pos 0;
  region_num = pos 4;
  to_char = λ v. v;
  max_update_sub_chn = pos 4;
  areas = pos 4;
  masks = pos 4;
  networks = pos 32;
  channels = pos 2;
  bt_num = pos 4;
  field = λ y. 64;
  default_num = numbers;
  default_txt = λ y. "new";
  now = "Sat Jul 11";
}

abbrev num : ℤ → Value
num v = record { text = ""; number = v }

abbrev texts : Txt → String
texts _ = "old"

numbers-InRange : (x : Num) → InRange x (numbers x)
unfolding InRange
numbers-InRange (Num.ubs _ _ UbsField.frame_rate) = (omega arith, omega arith)
numbers-InRange (Num.ubs _ _ UbsField.bit_rate) = (omega arith, omega arith)
numbers-InRange (Num.other OtherField.fw) = inl refl
numbers-InRange (Num.other OtherField.cloud_enable) = inl refl
numbers-InRange (Num.other OtherField.rec_enable) = inl refl
numbers-InRange _ = tt

-- A set of the frame rate and of the IP address on the main channel.
abbrev message : List (Key × Value)
message =
    (Key.context ContextKey.e_type, num (pos 1))
    ∷ (Key.context ContextKey.e_chn, num (pos 0))
    ∷ (Key.rate RateKey.e_frame_rate, num (pos 400))
    ∷ (Key.rate RateKey.e_bit_rate, num (pos 100))
    ∷ (Key.net NetKey.e_net_ip, record { text = "10.0.0.9"; number = pos 10 })
    ∷ []

abbrev after : Session
after = (process_msg consts true (some message) numbers texts).1

frame_rate_after : after.numbers (Num.ubs AvFile.av_0 (pos 0) UbsField.frame_rate) ≡ pos 150
unfolding process_msg row_net row_rate ◌*ℤ◌ put_num
frame_rate_after = refl

bit_rate_after : after.numbers (Num.ubs AvFile.av_0 (pos 0) UbsField.bit_rate) ≡ pos 512000
unfolding process_msg row_net row_rate ◌*ℤ◌ put_num
bit_rate_after = refl

calls_after :
    after.calls
    ≡ Call.set_fps (pos 0) (pos 0) (pos 150)
      ∷ Call.set_bps (pos 0) (pos 0) (pos 512000)
      ∷ Call.gen_if_cfg
      ∷ Call.write_cfg_file 0
      ∷ Call.write_cfg_file 6
      ∷ []
unfolding process_msg row_net row_rate ◌*ℤ◌ put_num
calls_after = refl

after_inside : after.wild ≡ false
unfolding process_msg row_net row_rate put_num ◌*ℤ◌
after_inside = refl

-- A bitstream that the array has not.
outside :
    (process_msg consts true
      (some (
        (Key.context ContextKey.e_type, num (pos 1))
        ∷ (Key.context ContextKey.e_sub_chn, num (pos 9))
        ∷ (Key.rate RateKey.e_frame_rate, num (pos 20))
        ∷ []))
      numbers
      texts).1.wild
    ≡ true
unfolding process_msg row_rate
outside = refl

no_memory : (process_msg consts false (some message) numbers texts).0 ≡ negsuc 1
unfolding process_msg row_net row_rate ◌*ℤ◌ put_num
no_memory = refl

-- A get of the DHCP flag answers with the state of the infra-red lamp.
abbrev with_lamp : Num → ℤ
with_lamp (Num.other OtherField.infrad_stat) = pos 2
with_lamp _ = pos 0

dhcp_shows_lamp :
    (process_msg consts true
      (some (
        (Key.context ContextKey.e_type, num (pos 0))
        ∷ (Key.net NetKey.e_net_dhcpflag, num (pos 0))
        ∷ []))
      with_lamp
      texts).1.reply
    ≡ (Key.context ContextKey.e_type, Shown.number (pos 0))
      ∷ (Key.net NetKey.e_net_dhcpflag, Shown.number (pos 2))
      ∷ []
unfolding process_msg row_net row_rate ◌*ℤ◌ put_num
dhcp_shows_lamp = refl

process_msg-lossless_example :
    let x = Num.other OtherField.fw in
    ((after.numbers x ≡ numbers x)
      ⊎ (is_passing x ≡ true)
      ⊎ IsDefault (after.numbers x) (numbers x) (file_of x)
      ⊎ IsWritten (file_of x) after.calls)
    × ((after.texts Txt.ip ≡ "old")
        ⊎ (is_passing_txt Txt.ip ≡ true)
        ⊎ IsDefault (after.texts Txt.ip) "new" (file_of_txt Txt.ip)
        ⊎ IsWritten (file_of_txt Txt.ip) after.calls)
process_msg-lossless_example =
    process_msg-lossless consts message numbers texts (Num.other OtherField.fw) Txt.ip after_inside

process_msg-InRange_example :
    InRange
      (Num.ubs AvFile.av_0 (pos 0) UbsField.frame_rate)
      (after.numbers (Num.ubs AvFile.av_0 (pos 0) UbsField.frame_rate))
process_msg-InRange_example =
    process_msg-InRange consts numbers-InRange message numbers texts numbers-InRange after_inside
      (Num.ubs AvFile.av_0 (pos 0) UbsField.frame_rate)

-- A session under T_Set, before and after its file of the network is marked.
abbrev setting : Session
setting = record (start numbers texts) { cmd_type = pos 1; channel = pos 0 }

abbrev marked : Session
marked = record setting { file_changed = λ i. if i == 6 then true else false }

finish-written_example : written 6 (finish marked).calls ≡ 0 + 1
unfolding written start
finish-written_example = finish-written 6 marked (omega arith)

set-get_example :
    let t = handle consts (Key.quant QuantKey.e_max_quant, num (pos 40)) setting in
    (handle consts (Key.quant QuantKey.e_max_quant, num (pos 0)) (as_get consts t)).reply
    ≡ t.reply ++ (Key.quant QuantKey.e_max_quant, Shown.number (pos 40)) ∷ []
unfolding is_plain
set-get_example =
    set-get consts (Key.quant QuantKey.e_max_quant) (num (pos 40)) (num (pos 0)) setting refl refl
      refl

-- What `sprintf` prints for "%02d", for numbers below 1000.
abbrev print_two : ℕ → List ℕ
print_two k =
    let low : List ℕ = (48 + k / 10 % 10) ∷ (48 + k % 10) ∷ [] in
    if ltb k 100 then low else (48 + k / 100) ∷ low

abbrev preset_consts : PresetConsts
preset_consts = record { all_num = 128; room = 32; print = print_two }

abbrev no_presets : ℕ → List Preset
no_presets zero = []
no_presets (suc n) = record { is_set = false; name = [] } ∷ no_presets n

abbrev presets : Presets
presets = record { table = no_presets 128; marked = false; sent = []; reply = [] }

gate-Fits : Fits preset_consts (65 ∷ [])
unfolding Fits
gate-Fits k h = elim (Bool-cases (ltb k 100)) [ inl t ↦ rw t refl | inr t ↦ rw t refl ]

set-goto_example :
    (t : Presets) × (deal_ptz_preset preset_consts true 3 (65 ∷ 51 ∷ []) presets ≡ some (pos 0, t))
    × (u : Presets) × (goto_ptz_preset preset_consts 3 t ≡ some u)
    × IsReached preset_consts 3 t u
unfolding get_prenamestring is_nil
set-goto_example =
    set-goto preset_consts 3 (65 ∷ 51 ∷ []) presets (omega arith) (omega arith) (omega arith)
      (omega arith) refl refl gate-Fits
