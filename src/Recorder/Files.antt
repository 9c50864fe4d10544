-- ===== src/Recorder/Files.antt =====
-- What the messages of the recorder can set, the sizes of a file, and how many frames it holds.
use avserver.Base.{
  ℕ, suc, ◌+◌, ◌-◌, ◌≤◌, ◌<◌, ◌≡◌, refl, ◌∙◌, ◌⊎◌, inl, inr, arith, leb, ℤ, pos, ◌≤ℤ◌, Bool, true,
  false, Bool-cases, List, [], ◌∷◌,
}
use avserver.Recorder.{
  Rec, AviKey, clamp_time, handle_avi, process_msg_avi, frame_rate_of, Status, Got, fetch, catch_up,
  save_frame, fill, new_file, record_file,
}

-- A file of one to five minutes.
unfoldable pub IsTimed : Rec → Type 0
IsTimed r = (pos 60 ≤ℤ r.time_l) × (r.time_l ≤ℤ pos 300)

handle_avi-IsTimed : (i : AviKey × ℤ) (r : Rec) → IsTimed r → IsTimed (handle_avi i r)
unfolding handle_avi IsTimed clamp_time
handle_avi-IsTimed (AviKey.e_avi_enable, v) r h = h
handle_avi-IsTimed (AviKey.e_avi_time_l, v) r h = ground arith
handle_avi-IsTimed (AviKey.e_avi_schd, v) r h = h
handle_avi-IsTimed (AviKey.other, v) r h = h

pub process_msg_avi-IsTimed :
    (is : List (AviKey × ℤ)) (r : Rec) → IsTimed r → IsTimed (process_msg_avi is r)
unfolding process_msg_avi
process_msg_avi-IsTimed [] r h = h
process_msg_avi-IsTimed (i ∷ is) r h =
    process_msg_avi-IsTimed is (handle_avi i r) (handle_avi-IsTimed i r h)

frame_rate-bounds : (v : ℤ) → (pos 8 ≤ℤ frame_rate_of v) × (frame_rate_of v ≤ℤ pos 30)
unfolding frame_rate_of
frame_rate-bounds v = ground arith

-- A round leaves the two counts alone until the frame is written.
fetch-counts :
    (g : Got) (s : Status)
    → ((fetch g s).0.rec_frames ≡ s.rec_frames) × ((fetch g s).0.saved ≡ s.saved)
unfolding fetch
fetch-counts g s = ground arith

catch_up-counts :
    (g : Got) (s : Status)
    → ((catch_up g s).0.rec_frames ≡ s.rec_frames) × ((catch_up g s).0.saved ≡ s.saved)
unfolding catch_up
catch_up-counts g s = ground arith

save_frame-counts :
    (g : Got) (s : Status)
    → let t = save_frame g s in
      ((t.rec_frames ≡ s.rec_frames) × (t.saved ≡ s.saved))
      ⊎ ((t.rec_frames ≡ suc s.rec_frames) × (t.saved ≡ suc s.saved))
unfolding save_frame
save_frame-counts g s = elim (Bool-cases g.success) [
  | inl e ↦ rw e (inr (refl, refl))
  | inr e ↦ rw e (inl (refl, refl))
]

-- What the status before and after the rounds of a file have in common, by the number of frames
-- before: both counts grow alike, and a finished file ends at the total, or at once.
unfoldable pub Counts : ℕ → Status → Status × Bool → Type 0
Counts totel s r =
    (r.0.rec_frames + s.saved ≡ r.0.saved + s.rec_frames)
    × ((r.1 ≡ false)
        ⊎ (r.0.rec_frames ≡ totel)
        ⊎ ((totel ≤ s.rec_frames) × (r.0.rec_frames ≤ suc s.rec_frames)))

Counts-same :
    (totel : ℕ) (s t : Status) (r : Status × Bool)
    → t.rec_frames ≡ s.rec_frames
    → t.saved ≡ s.saved
    → Counts totel t r
    → Counts totel s r
unfolding Counts
Counts-same totel s t r e d (c, c') = (omega arith, ground arith)

-- The last step of a round: the file ends, or the rounds go on below the total.
ends-Counts :
    (totel : ℕ) (g : Got) (s : Status)
    → leb totel (save_frame g s).rec_frames ≡ true
    → Counts totel s (save_frame g s, true)
unfolding Counts
ends-Counts totel g s h = elim (save_frame-counts g s) [
  | inl (e, d) ↦ (omega arith, ground arith)
  | inr (e, d) ↦ (omega arith, ground arith)
]

goes_on-Counts :
    (totel : ℕ) (g : Got) (s : Status) (r : Status × Bool)
    → leb totel (save_frame g s).rec_frames ≡ false
    → Counts totel (save_frame g s) r
    → Counts totel s r
unfolding Counts
goes_on-Counts totel g s r h (c, c') = elim (save_frame-counts g s) [
  | inl (e, d) ↦ (omega arith, ground arith)
  | inr (e, d) ↦ (omega arith, ground arith)
]

no_round : (totel : ℕ) (s : Status) → Counts totel s (s, false)
unfolding Counts
no_round totel s = (omega arith, inl refl)

fill-Counts : (totel : ℕ) (gs : List Got) (s : Status) → Counts totel s (fill totel gs s)
unfolding fill
fill-Counts totel [] s = no_round totel s
fill-Counts totel (g ∷ gs) s =
    let a : Status × Bool = fetch g s in
    let b : Status × Bool = catch_up g a.0 in
    let (ae, ad) = fetch-counts g s in
    let (be, bd) = catch_up-counts g a.0 in
    elim (Bool-cases a.1) [
      | inr p ↦ rw p (Counts-same totel s a.0 _ ae ad (fill-Counts totel gs a.0))
      | inl p ↦ rw p (elim (Bool-cases b.1) [
        | inr q ↦ rw q (Counts-same totel s b.0 _ (be ∙ ae) (bd ∙ ad) (fill-Counts totel gs b.0))
        | inl q ↦ rw q (
            Counts-same totel s b.0 _ (be ∙ ae) (bd ∙ ad)
              (elim (Bool-cases (leb totel (save_frame g b.0).rec_frames)) [
                | inl l ↦ rw l (ends-Counts totel g b.0 l)
                | inr l ↦
                    rw l (goes_on-Counts totel g b.0 _ l (fill-Counts totel gs (save_frame g b.0)))
              ]))
      ])
    ]

lt_or_le : (a b : ℕ) → (a < b) ⊎ (b ≤ a)
lt_or_le a b = ground arith

counted_first :
    (totel : ℕ) (s : Status) (r : Status × Bool)
    → s.rec_frames < totel
    → r.1 ≡ true
    → s.saved ≡ 0
    → Counts totel s r
    → r.0.saved ≡ totel - s.rec_frames
unfolding Counts
counted_first totel s r h e z (c, inl f) = absurd (cc)
counted_first totel s r h e z (c, inr (inl f)) = omega arith
counted_first totel s r h e z (c, inr (inr f)) = absurd (omega (arith, f.0))

counted_later :
    (totel : ℕ) (s : Status) (r : Status × Bool)
    → totel ≤ s.rec_frames
    → r.1 ≡ true
    → s.saved ≡ 0
    → Counts totel s r
    → r.0.saved ≤ 1
unfolding Counts
counted_later totel s r h e z (c, inl f) = absurd (cc)
counted_later totel s r h e z (c, inr (inl f)) = omega arith
counted_later totel s r h e z (c, inr (inr f)) = omega (arith, f.1)

-- If a file of the recorder is finished, then either fewer frames than its total were counted
-- before it, and it holds as many frames as were missing; or the total was counted already, and
-- it holds at most one frame.
pub record_file-length :
    (totel : ℕ) (gs : List Got) (s : Status)
    → (record_file totel gs s).1 ≡ true
    → ((s.rec_frames < totel) × ((record_file totel gs s).0.saved ≡ totel - s.rec_frames))
      ⊎ ((totel ≤ s.rec_frames) × ((record_file totel gs s).0.saved ≤ 1))
unfolding record_file new_file
record_file-length totel gs s e =
    let r : Status × Bool = record_file totel gs s in
    let c : Counts totel (new_file s) r = fill-Counts totel gs (new_file s) in
    elim (lt_or_le s.rec_frames totel) [
      | inl h ↦ inl (h, counted_first totel (new_file s) r h e refl c)
      | inr h ↦ inr (h, counted_later totel (new_file s) r h e refl c)
    ]
