-- ===== src/Audio/Fifo.antt =====
-- The byte FIFO of an audio channel, `struct Audio_data` of src/rtspd.c. A function that writes
-- `*padata` returns the new record.
pub mod Contents
pub mod Read
mod Tests
use Prim.Native.Nat.{min}
use avserver.Base.{
  ℕ, zero, suc, ◌+◌, ◌-◌, ◌*◌, ◌/◌, ◌%◌, Bool, true, false, ◌&&◌, List, [], ◌∷◌, ◌++◌, ltb, leb,
  ◌==◌, if◌then◌else◌, length, get_or, take, drop,
}

-- `ADATA_BUF_LENGTH`
abbrev pub buf_length : ℕ
buf_length = 4096

-- `AUDIO_SILC_SIZE`
abbrev pub slice_size : ℕ
slice_size = 160

-- NORMAL, EMTYE and FULL.
pub data Stat : Type 0 where
  normal empty full : Stat

-- The buffer gives the byte at each index.
pub record AudioData : Type 0 where
  pub p_in : ℕ
  pub p_out : ℕ
  pub stat : Stat
  pub buf : ℕ → ℕ

-- `memcpy(&buf[d], xs, length xs)`
unfoldable pub copy_in : (ℕ → ℕ) → ℕ → List ℕ → ℕ → ℕ
copy_in buf d xs i = if leb d i && ltb i (d + length xs) then get_or xs (i - d) 0 else buf i

-- The bytes that `memcpy(…, &buf[p], n)` reads.
unfoldable pub copy_out : (ℕ → ℕ) → ℕ → ℕ → List ℕ
copy_out buf p zero = []
copy_out buf p (suc n) = buf p ∷ copy_out buf (p + 1) n

-- The room that `adata_fifo_in` computes.
pub room : ℕ → ℕ → ℕ
room p_in p_out = if ltb p_in p_out then p_out - p_in else p_out + buf_length - p_in

-- The buffer after the one or two copies of `adata_fifo_in`.
pub fill : (ℕ → ℕ) → ℕ → List ℕ → ℕ → ℕ
fill buf p_in xs =
    if ltb buf_length (p_in + length xs)
    then copy_in (copy_in buf p_in (take (buf_length - p_in) xs)) 0 (drop (buf_length - p_in) xs)
    else copy_in buf p_in xs

pub next_in : ℕ → ℕ → ℕ
next_in p_in len =
    (if ltb buf_length (p_in + len) then (p_in + len - buf_length) % buf_length else p_in + len)
    % buf_length

-- The list is `buf[0 .. len)`.
pub adata_fifo_in : AudioData → List ℕ → AudioData
unfolding room fill next_in
adata_fifo_in f xs =
    let p_in' : ℕ = next_in f.p_in (length xs) in
    let g : AudioData = record f { p_in = p_in'; buf = fill f.buf f.p_in xs } in
    if ltb (length xs) (room f.p_in f.p_out)
    then record g { stat = normal }
    else record g { stat = full; p_out = p_in' }

-- `(b_len/AUDIO_SILC_SIZE)*AUDIO_SILC_SIZE`, where `b_len` is capped by `max_len`.
pub slices : ℕ → ℕ → ℕ
slices b_len max_len = (if ltb max_len b_len then max_len else b_len) / slice_size * slice_size

-- The branch where the bytes do not go round the end of the buffer.
out_straight : AudioData → ℕ → List ℕ × ℕ
unfolding slices
out_straight f max_len =
    let len : ℕ = slices (f.p_in - f.p_out) max_len in (copy_out f.buf f.p_out len, f.p_out + len)

-- The branch where they may.
out_round : AudioData → ℕ → List ℕ × ℕ
unfolding slices
out_round f max_len =
    let len : ℕ = slices (buf_length - f.p_out + f.p_in) max_len in
    if ltb buf_length (f.p_out + len)
    then (
      copy_out f.buf f.p_out (buf_length - f.p_out)
          ++ copy_out f.buf 0 (f.p_out + len - buf_length),
      (f.p_out + len) % buf_length % buf_length,
    )
    else (copy_out f.buf f.p_out len, (f.p_out + len) % buf_length)

out_bytes : AudioData → ℕ → List ℕ × ℕ
unfolding out_straight out_round
out_bytes f max_len = if ltb f.p_out f.p_in then out_straight f max_len else out_round f max_len

is_empty : Stat → Bool
is_empty empty = true
is_empty _ = false

-- The bytes written to `buf`, of which there are `*plen`, beside the new FIFO.
pub adata_fifo_out : AudioData → ℕ → List ℕ × AudioData
unfolding out_bytes is_empty
adata_fifo_out f max_len =
    let (bytes, p_out') = out_bytes f max_len in
    let stat' : Stat = if f.p_in == p_out' then empty else f.stat in
    if is_empty f.stat then ([], f) else (bytes, record f { p_out = p_out'; stat = stat' })
