-- ===== src/Message/Written.antt =====
-- The files that a message writes at its end: src/processMsg.c 3680-3724.
use avserver.Base.{
  ℕ, zero, suc, ◌+◌, ◌==◌, ◌<◌, ◌≤◌, ltb, leb, arith, ◌≡◌, refl, ◌∙◌, ◌⊎◌, Bool, true, false, ◌&&◌,
  if◌then◌else◌, Bool-cases, inl, inr, List, [], ◌∷◌, ◌++◌,
}
use mathlib.Core.Path.{subst}
use avserver.Message.Vars.{File, file_no}
use avserver.Message.Session.{Call, Session, make, clr_file_changed}
use avserver.Message.Act.{when}
use avserver.Message.Process.{write_files, announce, finish, end_file}

-- How often a list of calls writes file j.
unfoldable pub written : ℕ → List Call → ℕ
written j [] = 0
written j (Call.write_cfg_file i ∷ cs) = if j == i then suc (written j cs) else written j cs
written j (_ ∷ cs) = written j cs

pub written-append :
    (j : ℕ) (cs ds : List Call) → written j (cs ++ ds) ≡ written j cs + written j ds
unfolding written
written-append j [] ds = omega arith
written-append j (Call.write_cfg_file i ∷ cs) ds = ground (arith, written-append j cs ds)
written-append j (_ ∷ cs) ds = written-append j cs ds

-- One for a file of the loop that is marked.
unfoldable pub due : ℕ → ℕ → Session → ℕ → ℕ
due n i s j = if leb i j && ltb j (i + n) && s.file_changed j then 1 else 0

lt_eq_gt : (i j : ℕ) → (i < j) ⊎ ((i ≡ j) ⊎ (j < i))
lt_eq_gt i j = ground arith

-- One round of the loop.
write_one : ℕ → Session → Session
write_one i s =
    if s.file_changed i
    then make (Call.write_cfg_file i ∷ [])
        (record s { file_changed = clr_file_changed i s.file_changed })
    else s

write_one-written :
    (i j : ℕ) (s : Session)
    → written j (write_one i s).calls
      ≡ written j s.calls + (if j == i && s.file_changed i then 1 else 0)
unfolding write_one make written
write_one-written i j s = elim (Bool-cases (s.file_changed i)) [
  | inl e ↦ rw e (written-append j s.calls (Call.write_cfg_file i ∷ []) ∙ ground arith)
  | inr e ↦ rw e (ground arith)
]

write_one-changed :
    (i j : ℕ) (s : Session) → i < j → (write_one i s).file_changed j ≡ s.file_changed j
unfolding write_one make clr_file_changed
write_one-changed i j s h = ground arith

-- The loop from i on is its first round and the loop from the next file on.
due-step :
    (n i j : ℕ) (s : Session)
    → (if j == i && s.file_changed i then 1 else 0) + due n (suc i) (write_one i s) j
      ≡ due (suc n) i s j
unfolding due
due-step n i j s = elim (lt_eq_gt i j) [
  | inl lt ↦ rw (write_one-changed i j s lt) (ground arith)
  | inr (inl e) ↦
      subst
        (λ k.
          (if k == i && s.file_changed i then 1 else 0)
            + (if leb (suc i) k && ltb k (suc i + n) && (write_one i s).file_changed k
                then 1
                else 0)
          ≡ (if leb i k && ltb k (i + suc n) && s.file_changed k then 1 else 0))
        e (ground arith)
  | inr (inr gt) ↦ ground arith
]

write_files-written :
    (n i j : ℕ) (s : Session)
    → written j (write_files n i s).calls ≡ written j s.calls + due n i s j
unfolding write_files write_one due
write_files-written zero i j s = ground arith
write_files-written (suc n) i j s = omega (
  arith,
  write_files-written n (suc i) j (write_one i s),
  write_one-written i j s,
  due-step n i j s,
)

-- The calls that are made before and after the loop write nothing.
when-make-written :
    (b : Bool) (c : Call) (j : ℕ) (s : Session)
    → written j (c ∷ []) ≡ 0
    → (written j (when b (make (c ∷ [])) s).calls ≡ written j s.calls)
      × ((when b (make (c ∷ [])) s).file_changed j ≡ s.file_changed j)
unfolding when make
when-make-written true c j s h = (ground (arith, written-append j s.calls (c ∷ [])), refl)
when-make-written false c j s h = (refl, refl)

announce-written :
    (j : ℕ) (s : Session)
    → (written j (announce s).calls ≡ written j s.calls)
      × ((announce s).file_changed j ≡ s.file_changed j)
unfolding announce written
announce-written j s =
    let s1 : Session = when s.if_cfg (make (Call.gen_if_cfg ∷ [])) s in
    let s2 : Session = when (ltb 0 s.ntpserver_cfg) (make (Call.start_ntp ∷ [])) s1 in
    let s3 : Session = when (s.file_changed (file_no File.rec)) (make (Call.rec_cfg_set ∷ [])) s2 in
    let (a, a') = when-make-written s.if_cfg Call.gen_if_cfg j s refl in
    let (b, b') = when-make-written (ltb 0 s.ntpserver_cfg) Call.start_ntp j s1 refl in
    let (c, c') =
      when-make-written (s.file_changed (file_no File.rec)) Call.rec_cfg_set j s2 refl in
    let (d, d') = when-make-written s.osd_cfg Call.send_osd j s3 refl in
    (d ∙ c ∙ b ∙ a, d' ∙ c' ∙ b' ∙ a')

-- At the end of a message each file that is marked is written exactly once, and no other file
-- is.
pub finish-written :
    (j : ℕ) (s : Session)
    → j ≤ end_file
    → written j (finish s).calls ≡ written j s.calls + (if s.file_changed j then 1 else 0)
unfolding finish written due
finish-written j s h =
    let s' : Session = write_files (suc end_file) 0 (announce s) in
    let (a, a') = announce-written j s in
    let (b, _) = when-make-written (ltb 0 s.reboot) Call.restart j s' refl in
    b ∙ write_files-written (suc end_file) 0 j (announce s) ∙ rw (a, a') (ground arith)

when-make-numbers :
    (b : Bool) (cs : List Call) (s : Session) → (when b (make cs) s).numbers ≡ s.numbers
unfolding when make
when-make-numbers true cs s = refl
when-make-numbers false cs s = refl

write_one-numbers : (i : ℕ) (s : Session) → (write_one i s).numbers ≡ s.numbers
unfolding write_one make
write_one-numbers i s = elim (Bool-cases (s.file_changed i)) [ inl e ↦ rw e | inr e ↦ rw e ]

write_files-numbers : (n i : ℕ) (s : Session) → (write_files n i s).numbers ≡ s.numbers
unfolding write_files write_one
write_files-numbers zero i s = refl
write_files-numbers (suc n) i s =
    write_files-numbers n (suc i) (write_one i s) ∙ write_one-numbers i s

pub finish-numbers : (s : Session) → (finish s).numbers ≡ s.numbers
unfolding finish announce
finish-numbers s =
    let s1 : Session = when s.if_cfg (make (Call.gen_if_cfg ∷ [])) s in
    let s2 : Session = when (ltb 0 s.ntpserver_cfg) (make (Call.start_ntp ∷ [])) s1 in
    let s3 : Session = when (s.file_changed (file_no File.rec)) (make (Call.rec_cfg_set ∷ [])) s2 in
    when-make-numbers (ltb 0 s.reboot) (Call.restart ∷ [])
      (write_files (suc end_file) 0 (announce s))
    ∙ write_files-numbers (suc end_file) 0 (announce s)
    ∙ when-make-numbers s.osd_cfg (Call.send_osd ∷ []) s3
    ∙ when-make-numbers (s.file_changed (file_no File.rec)) (Call.rec_cfg_set ∷ []) s2
    ∙ when-make-numbers (ltb 0 s.ntpserver_cfg) (Call.start_ntp ∷ []) s1
    ∙ when-make-numbers s.if_cfg (Call.gen_if_cfg ∷ []) s

when-make-texts : (b : Bool) (cs : List Call) (s : Session) → (when b (make cs) s).texts ≡ s.texts
unfolding when make
when-make-texts true cs s = refl
when-make-texts false cs s = refl

write_one-texts : (i : ℕ) (s : Session) → (write_one i s).texts ≡ s.texts
unfolding write_one make
write_one-texts i s = elim (Bool-cases (s.file_changed i)) [ inl e ↦ rw e | inr e ↦ rw e ]

write_files-texts : (n i : ℕ) (s : Session) → (write_files n i s).texts ≡ s.texts
unfolding write_files write_one
write_files-texts zero i s = refl
write_files-texts (suc n) i s = write_files-texts n (suc i) (write_one i s) ∙ write_one-texts i s

pub finish-texts : (s : Session) → (finish s).texts ≡ s.texts
unfolding finish announce
finish-texts s =
    let s1 : Session = when s.if_cfg (make (Call.gen_if_cfg ∷ [])) s in
    let s2 : Session = when (ltb 0 s.ntpserver_cfg) (make (Call.start_ntp ∷ [])) s1 in
    let s3 : Session = when (s.file_changed (file_no File.rec)) (make (Call.rec_cfg_set ∷ [])) s2 in
    when-make-texts (ltb 0 s.reboot) (Call.restart ∷ []) (write_files (suc end_file) 0 (announce s))
    ∙ write_files-texts (suc end_file) 0 (announce s)
    ∙ when-make-texts s.osd_cfg (Call.send_osd ∷ []) s3
    ∙ when-make-texts (s.file_changed (file_no File.rec)) (Call.rec_cfg_set ∷ []) s2
    ∙ when-make-texts (ltb 0 s.ntpserver_cfg) (Call.start_ntp ∷ []) s1
    ∙ when-make-texts s.if_cfg (Call.gen_if_cfg ∷ []) s
