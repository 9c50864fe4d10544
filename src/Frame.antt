-- ===== src/Frame.antt =====
-- The pools of frame slots of src/rtspd.c (918-1071): two doubly linked lists of `frame_slot_t`
-- for each video queue, one of free slots and one of slots that the RTSP server still reads.
pub mod Heap
pub mod Dll
pub mod Link
pub mod Unlink
pub mod Pool
pub mod Init
pub mod Run
pub mod Walk
mod Tests
use avserver.Base.{
  ℕ, zero, suc, ◌+◌, ℤ, pos, minus_one, Bool, true, false, ◌||◌, not, Option, none, some, List, [],
  ◌∷◌, ◌==◌, leb, ltb_ℤ, leb_ℤ, eqb_ℤ, if◌then◌else◌, length,
}
use avserver.Frame.Heap.{
  Ptr, null, Cmd, fault, pure, ◌>>=◌, ◌>>◌, load, set_next, set_prev, alloc, free,
}

-- `frame_info_t`, its mutex left out: each operation below runs under it.
pub record FrameInfo : Type 0 where
  pub avail : Ptr
  pub used : Ptr

-- `VIDEO_FRAME_NUMBER`, which is VQ_LEN + 1.
abbrev pub video_frame_number : ℕ
video_frame_number = 6

-- `VQ_MAX`, the number of video queues.
abbrev pub vq_max : ℤ
vq_max = pos 64

-- A function that writes `*list` returns its new value.
pub add_to_list : Ptr → Ptr → Cmd Ptr
add_to_list fs list = do
  set_prev fs null
  set_next fs list
  s ← load fs
  if s.next == null then pure tt else set_prev s.next fs
  pure fs

-- The removed slot, and `*list`.
pub remove_from_listhead : Ptr → Cmd (Ptr × Ptr)
remove_from_listhead list = do
  s ← load list
  if s.next == null then pure tt else set_prev s.next null
  pure (list, s.next)

pub remove_from_list : Ptr → Ptr → Cmd Ptr
remove_from_list fs list = do
  s ← load fs
  if s.next == null then pure tt else set_prev s.next s.prev
  if s.prev == null then pure s.next else set_next s.prev s.next >> pure list

-- The walks over a list take fuel; a list of n slots needs n + 1 rounds.
pub get_num_of_list : ℕ → Ptr → Cmd ℕ
get_num_of_list zero fs = fault
get_num_of_list (suc k) fs =
    if fs == null then pure 0 else do s ← load fs; n ← get_num_of_list k s.next; pure (n + 1)

pub search_from_list : ℕ → ℤ → Ptr → Cmd Ptr
search_from_list zero key fs = fault
search_from_list (suc k) key fs = if fs == null then pure null else do
  s ← load fs
  if eqb_ℤ s.vf.search_key key then pure fs else search_from_list k key s.next

-- The loop of `init_video_frame`: one round for each address that `malloc` returns. A null address
-- is a failure of either `malloc` of the round.
init_loop : List Ptr → Ptr → Cmd (ℤ × Ptr)
init_loop [] avail = pure (pos 0, avail)
init_loop (fresh ∷ rest) avail =
    if fresh == null
    then pure (minus_one, avail)
    else do alloc fresh; avail' ← add_to_list fresh avail; init_loop rest avail'

unfoldable pub qno_ok : ℤ → Bool
qno_ok qno = not (leb_ℤ vq_max qno || ltb_ℤ qno (pos 0))

-- `fresh` is what `malloc` returns, in turn: one address for each of the slots. The information of
-- the queue is `none` where the function returns before it writes it.
pub init_video_frame : ℤ → List Ptr → Cmd (ℤ × Option FrameInfo)
unfolding init_loop qno_ok
init_video_frame qno fresh =
    if qno_ok qno
    then (do
      (ret, avail) ← init_loop fresh null
      pure (ret, some (record { avail = avail; used = null })))
    else pure (minus_one, none)

pub get_num_of_used_video_frame : ℕ → FrameInfo → Cmd ℕ
get_num_of_used_video_frame fuel info = get_num_of_list fuel info.used

-- The loop of `free_video_frame`, with the number `i` of slots freed so far. It gives up at slot
-- number VIDEO_FRAME_NUMBER.
free_loop : ℕ → Ptr → ℕ → Cmd (ℕ × Bool)
free_loop zero fs i = fault
free_loop (suc k) fs i = if fs == null then pure (i, true) else do
  s ← load fs
  free fs
  if leb video_frame_number i then pure (i, false) else free_loop k s.next (i + 1)

pub free_video_frame : ℕ → FrameInfo → Cmd (ℤ × FrameInfo)
unfolding free_loop
free_video_frame fuel info = do
  (i, complete) ← free_loop fuel info.avail 0
  let emptied : FrameInfo = record { avail = null; used = null }
  let ret : ℤ = if i == video_frame_number then pos 0 else minus_one
  pure (if complete then (ret, emptied) else (minus_one, info))

unfoldable pub search_video_frame : ℕ → ℤ → FrameInfo → Cmd Ptr
search_video_frame fuel key info = search_from_list fuel key info.used

-- The slot taken, null if the queue number is refused.
pub take_video_frame : ℤ → FrameInfo → Cmd (Ptr × FrameInfo)
unfolding qno_ok
take_video_frame qno info = if not (qno_ok qno) then pure (null, info) else do
  (fs, avail) ← remove_from_listhead info.avail
  let full : Cmd (Ptr × FrameInfo) = pure (null, record info { avail = avail })
  if fs == null
      then full
      else do used ← add_to_list fs info.used; pure (fs, record { avail = avail; used = used })

pub put_video_frame : ℤ → Ptr → FrameInfo → Cmd FrameInfo
unfolding qno_ok
put_video_frame qno fs info = if not (qno_ok qno) || fs == null then pure info else do
  used ← remove_from_list fs info.used
  avail ← add_to_list fs info.avail
  pure (record { avail = avail; used = used })
