-- ===== src/Frame/Dll.antt =====
-- Doubly linked lists on the heap.
use avserver.Base.{
  ◌≡◌, refl, ◌≢◌, Bool, true, false, ◌||◌, Option, some, List, [], ◌∷◌, ◌++◌, arith, ◌==◌,
}
use avserver.Frame.Heap.{Ptr, null, VideoFrame, Slot, slot, Heap, write}

-- What a list holds: address and frame of each slot, in order.
abbrev pub Cells : Type 0
Cells = List (Ptr × VideoFrame)

-- The value of the list variable.
abbrev pub head : Cells → Ptr
head [] = null
head ((x, _) ∷ xs) = x

abbrev pub has : Ptr → Cells → Bool
has a [] = false
has a ((x, _) ∷ xs) = (a == x) || has a xs

-- From `head xs`, whose predecessor is `prev`, the links lead through the distinct slots `xs`.
abbrev pub Dll : Heap → Ptr → Cells → Type 0
Dll h prev [] = Unit {0}
Dll h prev ((x, v) ∷ xs) =
    (x ≢ null) × (h x ≡ some (slot (head xs) prev v)) × (has x xs ≡ false) × Dll h x xs

pub has-append : (a : Ptr) (xs ys : Cells) → has a (xs ++ ys) ≡ (has a xs || has a ys)
has-append a [] ys = refl
has-append a ((x, v) ∷ xs) ys = ground (arith, has-append a xs ys)

-- A list survives any change that spares its slots.
pub frame :
    (h g : Heap) (prev : Ptr) (xs : Cells)
    → Dll h prev xs
    → ((a : Ptr) → has a xs ≡ true → g a ≡ h a)
    → Dll g prev xs
frame h g prev [] d same = tt
frame h g prev ((x, v) ∷ xs) d same =
    (d.0, ground (arith, same x), d.2, frame h g x xs d.3 (λ a m. same a (ground arith)))

pub frame-write :
    (h : Heap) (prev : Ptr) (xs : Cells) (a : Ptr) (c : Option Slot)
    → Dll h prev xs
    → has a xs ≡ false
    → Dll (write h a c) prev xs
unfolding write
frame-write h prev xs a c d out = frame h (write h a c) prev xs d (λ b m. ground arith)

-- The `prev` of the first slot of a list, where it has one, is written.
unfoldable pub set_head_prev : Heap → Ptr → Cells → Heap
set_head_prev h p [] = h
set_head_prev h p ((x, v) ∷ xs) = write h x (some (slot (head xs) p v))

pub set_head_prev-Dll :
    (h : Heap) (prev p : Ptr) (xs : Cells) → Dll h prev xs → Dll (set_head_prev h p xs) p xs
unfolding set_head_prev write
set_head_prev-Dll h prev p [] d = tt
set_head_prev-Dll h prev p ((x, v) ∷ xs) d =
    (d.0, ground arith, d.2, frame-write h x xs x (some (slot (head xs) p v)) d.3 d.2)

-- Only slots of the list are written.
pub set_head_prev-other :
    (h : Heap) (p a : Ptr) (xs : Cells) → has a xs ≡ false → set_head_prev h p xs a ≡ h a
unfolding set_head_prev write
set_head_prev-other h p a [] out = refl
set_head_prev-other h p a ((x, v) ∷ xs) out = ground arith
