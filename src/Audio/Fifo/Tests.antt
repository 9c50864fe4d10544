-- ===== src/Audio/Fifo/Tests.antt =====
-- A FIFO near the end of its buffer: examples of the theorems.
use avserver.Base.{◌≡◌, ◌++◌, [], ◌∷◌, length, arith}
use avserver.Audio.Fifo.{AudioData, normal, adata_fifo_in, adata_fifo_out, buf_length}
use avserver.Audio.Fifo.Contents.{IsValid, contents, count, in-contents, kept, last_items}
use avserver.Audio.Fifo.Read.{IsLargest, out-contents}

-- It holds the two bytes of the end and the three of the start.
abbrev turned : AudioData
turned = record { p_in = 3; p_out = 4094; stat = normal; buf = λ i. i }

turned-IsValid : IsValid turned
turned-IsValid = ground arith

in-contents_example :
    contents (adata_fifo_in turned (8 ∷ 9 ∷ []))
    ≡ last_items buf_length (kept turned ++ (8 ∷ 9 ∷ []))
in-contents_example = in-contents turned (8 ∷ 9 ∷ []) turned-IsValid (omega arith) (omega arith)

-- 196 bytes, of which a read takes one slice.
abbrev long : AudioData
long = record { p_in = 100; p_out = 4000; stat = normal; buf = λ i. i }

long-IsValid : IsValid long
long-IsValid = ground arith

out-contents_example :
    let (bytes, g) = adata_fifo_out long 320 in
    (bytes ++ contents g ≡ contents long) × IsLargest (count long) 320 (length bytes)
out-contents_example = out-contents long 320 long-IsValid (omega arith)
