-- ===== src/Frame/Heap.antt =====
-- Frame slots at addresses, and the commands that read and write them. A command that goes through
-- a null or dangling pointer faults.
use avserver.Base.{ℕ, ℤ, pos, Option, none, some, ◌==◌, if◌then◌else◌}

abbrev pub Ptr : Type 0
Ptr = ℕ

abbrev pub null : Ptr
null = 0

-- `video_frame_t`. Its `queue` is the encoder driver's record, which the program only copies: it is
-- an opaque number here.
pub record VideoFrame : Type 0 where
  pub ch_num : ℕ
  pub sub_num : ℕ
  pub queue : ℕ
  pub search_key : ℤ

-- `frame_slot_t`. Each slot owns its `video_frame_t`, which is held in place.
pub record Slot : Type 0 where
  pub next : Ptr
  pub prev : Ptr
  pub vf : VideoFrame

abbrev pub slot : Ptr → Ptr → VideoFrame → Slot
slot n p v = record { next = n; prev = p; vf = v }

abbrev pub Heap : Type 0
Heap = Ptr → Option Slot

unfoldable pub write : Heap → Ptr → Option Slot → Heap
write h p c a = if a == p then c else h a

abbrev pub Cmd : Type 0 → Type 0
Cmd A = Heap → Option (A × Heap)

abbrev pub fault : {A : Type 0} → Cmd A
fault h = none

abbrev pub pure : {A : Type 0} → A → Cmd A
pure a h = some (a, h)

module _ {A B : Type 0} where
  abbrev pub and_then : Option (A × Heap) → (A → Cmd B) → Option (B × Heap)
  and_then none k = none
  and_then (some (a, h)) k = k a h

  infixl 5 ◌>>=◌
  abbrev pub ◌>>=◌ : Cmd A → (A → Cmd B) → Cmd B
  ◌>>=◌ first next h = and_then (first h) next

  infixl 5 ◌>>◌
  abbrev pub ◌>>◌ : Cmd A → Cmd B → Cmd B
  ◌>>◌ first next h = and_then (first h) (λ _. next)

-- `*p`
unfoldable pub load : Ptr → Cmd Slot
load p h = if p == null then none else elim (h p) [ none ↦ none | some s ↦ some (s, h) ]

abbrev pub store : Ptr → Option Slot → Cmd (Unit {0})
store p c h = some (tt, write h p c)

unfoldable pub set_next : Ptr → Ptr → Cmd (Unit {0})
set_next p q = do s ← load p; store p (some (record s { next = q }))

unfoldable pub set_prev : Ptr → Ptr → Cmd (Unit {0})
set_prev p q = do s ← load p; store p (some (record s { prev = q }))

-- What `malloc` leaves in the slot is unspecified; the code writes `next` and `prev` before it
-- reads them, and the frame is zero here.
abbrev pub blank : VideoFrame
blank = record { ch_num = 0; sub_num = 0; queue = 0; search_key = pos 0 }

unfoldable pub alloc : Ptr → Cmd (Unit {0})
alloc p = store p (some (slot null null blank))

unfoldable pub free : Ptr → Cmd (Unit {0})
free p = load p >> store p none
