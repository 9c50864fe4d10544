-- ===== src/Clock/Nal.antt =====
-- What `H264GetNALType` finds.
use avserver.Base.{
  ℕ, zero, suc, ◌+◌, ◌-◌, ◌%◌, ◌≡◌, refl, arith, Bool, false, ◌&&◌, ◌||◌, ltb, leb, if◌then◌else◌,
  List, length, get_or, Bool-cases, inl, inr,
}
use avserver.Clock.{start_code, nal_loop, h264_get_nal_type}

-- Whether a start code stands at one of `n` places from `i` on.
pub has_start_code : ℕ → ℕ → List ℕ → Bool
has_start_code zero i bs = false
has_start_code (suc n) i bs = start_code bs i || has_start_code n (i + 1) bs

loop_lem :
    (pps n i : ℕ) (bs : List ℕ)
    → let t = get_or bs 4 0 % 32 in
      nal_loop pps n i bs ≡ (if has_start_code n i bs && leb t pps then t else 0)
unfolding nal_loop has_start_code
loop_lem pps zero i bs = refl
loop_lem pps (suc n) i bs = ground (arith, loop_lem pps n (i + 1) bs)

-- The result for every buffer: the type of an incomplete unit if it has fewer than five bytes;
-- otherwise the low five bits of byte 4, if a start code stands at some place with at least four
-- bytes behind it and these bits are a known type, and 0 if not. Byte 4 is read wherever the
-- start code stands.
pub h264_get_nal_type_lem :
    (nal pps : ℕ) (bs : List ℕ)
    → let t = get_or bs 4 0 % 32 in
      h264_get_nal_type nal pps bs ≡ (
        if ltb (length bs) 5
        then nal
        else (if has_start_code (length bs - 4) 0 bs && leb t pps then t else 0))
unfolding h264_get_nal_type
h264_get_nal_type_lem nal pps bs = elim (Bool-cases (ltb (length bs) 5)) [
  | inl e ↦ rw e
  | inr e ↦ rw e (loop_lem pps (length bs - 4) 0 bs)
]
