-- ===== src/Frame/Tests.antt =====
-- Pools of three slots: tests of the functions and examples of the theorems.
use avserver.Base.{
  pos, minus_one, ◌≡◌, refl, true, none, some, List, [], ◌∷◌, ◌==◌, if◌then◌else◌, length, arith,
}
use avserver.Frame.{qno_ok, init_video_frame, free_video_frame, video_frame_number}
use avserver.Frame.Heap.{Ptr, null, VideoFrame, slot, Heap, blank}
use avserver.Frame.Dll.{Cells, has, head}
use avserver.Frame.Pool.{Pool, IsPool, pool, info}
use avserver.Frame.Init.{AreFresh, init_video_frame_lem}
use avserver.Frame.Run.{Op, take, put, remove, step, run_spec, RunsTo, run_refines}
use avserver.Frame.Walk.{find, free_video_frame_lem}

abbrev frame_a : VideoFrame
frame_a = record { ch_num = 0; sub_num = 0; queue = 1; search_key = pos 7 }

abbrev frame_b : VideoFrame
frame_b = record { ch_num = 1; sub_num = 0; queue = 2; search_key = pos 9 }

-- Slots 10 and 20 are free, 30 and 40 in use.
abbrev two_and_two : Heap
two_and_two a =
    if a == 10
    then some (slot 20 null blank)
    else if a == 20
    then some (slot null 10 blank)
    else if a == 30
    then some (slot 40 null frame_a)
    else if a == 40
    then some (slot null 30 frame_b)
    else none

abbrev free_cells : Cells
free_cells = (10, blank) ∷ (20, blank) ∷ []

abbrev used_cells : Cells
used_cells = (30, frame_a) ∷ (40, frame_b) ∷ []

abbrev start : Pool
start = pool free_cells used_cells

start-IsPool : IsPool two_and_two (info (head start.avail) (head start.used)) start
start-IsPool = record {
  avail_list = (ground arith, refl, refl, (ground arith, refl, refl, tt));
  used_list = (ground arith, refl, refl, (ground arith, refl, refl, tt));
  avail_head = refl;
  used_head = refl;
  apart = λ a m. ground arith;
}

abbrev script : List Op
script = take ∷ put 30 ∷ take ∷ []

-- Slot 10 is taken, 30 given back and taken again.
abbrev finish : Pool
finish = pool ((20, blank) ∷ []) ((30, frame_a) ∷ (10, blank) ∷ (40, frame_b) ∷ [])

queue_three : qno_ok (pos 3) ≡ true
unfolding qno_ok
queue_three = refl

script_runs : run_spec script start ≡ some finish
unfolding run_spec step remove
script_runs = refl

run_refines_example : RunsTo (pos 3) script two_and_two start finish
run_refines_example =
    run_refines (pos 3) script two_and_two start finish queue_three start-IsPool script_runs

abbrev six : List Ptr
six = 1 ∷ 2 ∷ 3 ∷ 4 ∷ 5 ∷ 6 ∷ []

six-AreFresh : AreFresh six []
six-AreFresh = ground arith

init_video_frame_lem_example :
    (h' : Heap) × (avail : Cells) × (init_video_frame (pos 3) six two_and_two
      ≡ some ((pos 0, some (info (head avail) null)), h'))
    × IsPool h' (info (head avail) null) (pool avail [])
    × (length avail ≡ video_frame_number)
init_video_frame_lem_example =
    init_video_frame_lem two_and_two (pos 3) six queue_three six-AreFresh refl

free_video_frame_lem_example :
    (h' : Heap) × (free_video_frame 3 (info 10 30) two_and_two
      ≡ some ((minus_one, info null null), h'))
    × ((a : Ptr) → h' a ≡ (if has a free_cells then none else two_and_two a))
free_video_frame_lem_example =
    free_video_frame_lem 3 two_and_two free_cells used_cells start-IsPool (omega arith)
      (omega arith)

-- The key stands in the second used slot.
found : find (pos 9) used_cells ≡ 40
unfolding find
found = refl
