-- ===== src/Audio/Fifo/Contents.antt =====
-- The bytes that a FIFO holds, oldest first, and what the two functions do to them.
use avserver.Base.{
  ℕ, zero, suc, ◌+◌, ◌-◌, ◌%◌, ◌<◌, ◌≤◌, ◌≡◌, ◌≢◌, refl, ◌∙◌, ap, sym, List, [], ◌∷◌, ◌++◌, arith,
  ltb, ◌==◌, if◌then◌else◌, Bool-cases, inl, inr, ◌⊎◌, length, get_or, drop, length-append,
  length-take, length-drop, get_or-append, get_or-take, get_or-drop, list_ext,
}
use avserver.Audio.Fifo.{
  buf_length, slice_size, normal, empty, AudioData, copy_in, room, fill, adata_fifo_in,
  adata_fifo_out, is_empty,
}

-- The `n` bytes from index `p` on, going round the end of the buffer.
unfoldable pub window : (ℕ → ℕ) → ℕ → ℕ → List ℕ
window buf p zero = []
window buf p (suc n) = buf p ∷ window buf ((p + 1) % buf_length) n

-- How many bytes are held: equal indices stand for an empty or a full buffer.
unfoldable pub count : AudioData → ℕ
unfolding is_empty
count f =
    if is_empty f.stat
    then 0
    else (if ltb f.p_out f.p_in then f.p_in - f.p_out else buf_length - f.p_out + f.p_in)

unfoldable pub contents : AudioData → List ℕ
unfolding window count
contents f = window f.buf f.p_out (count f)

pub record IsValid (f : AudioData) : Type 0 where
  pub in_bound : f.p_in < buf_length
  pub out_bound : f.p_out < buf_length
  pub empty_eq : f.stat ≡ empty → f.p_in ≡ f.p_out
  pub normal_ne : f.stat ≡ normal → f.p_in ≢ f.p_out

-- Writing a block of 1 to 4096 bytes to a valid FIFO leaves a valid one: both indices within the
-- buffer, equal if it is empty and different if it is neither empty nor full.
pub in-IsValid :
    (f : AudioData) (xs : List ℕ)
    → IsValid f
    → 0 < length xs
    → length xs ≤ buf_length
    → IsValid (adata_fifo_in f xs)
unfolding adata_fifo_in
in-IsValid f xs v pos fits = ground arith

-- Reading from a valid FIFO into a buffer of at least 160 bytes leaves a valid one.
pub out-IsValid :
    (f : AudioData) (max_len : ℕ)
    → IsValid f
    → slice_size ≤ max_len
    → IsValid (adata_fifo_out f max_len).1
unfolding adata_fifo_out
out-IsValid f max_len v one = ground arith

-- What the copies of a block leave at an index.
fill_at :
    (buf : ℕ → ℕ) (p i : ℕ) (xs : List ℕ)
    → p < buf_length
    → i < buf_length
    → length xs ≤ buf_length
    → fill buf p xs i ≡ (
        if ltb ((i + buf_length - p) % buf_length) (length xs)
        then get_or xs ((i + buf_length - p) % buf_length) 0
        else buf i)
unfolding fill copy_in
fill_at buf p i xs hp hi hl =
    let m : ℕ = buf_length - p in
    ground (
      arith,
      length-take m xs,
      length-drop m xs,
      get_or-take m xs (i - p) 0,
      get_or-drop m xs (i - 0) 0,
    )

pub length-window : (buf : ℕ → ℕ) (p n : ℕ) → length (window buf p n) ≡ n
unfolding window
length-window buf p zero = refl
length-window buf p (suc n) = ap suc (length-window buf ((p + 1) % buf_length) n)

get_or-window :
    (buf : ℕ → ℕ) (p n k : ℕ)
    → p < buf_length
    → k < n
    → get_or (window buf p n) k 0 ≡ buf ((p + k) % buf_length)
unfolding window
get_or-window buf p zero k hp h = elim h [ ]
get_or-window buf p (suc n) zero hp h = ap buf (omega arith)
get_or-window buf p (suc n) (suc k) hp h =
    get_or-window buf ((p + 1) % buf_length) n k (omega arith) (omega arith) ∙ ap buf (omega arith)

-- The bytes that a write keeps: those held, but none where the two indices are equal.
pub kept : AudioData → List ℕ
kept f = if f.p_in == f.p_out then [] else contents f

-- The last `n` items.
unfoldable pub last_items {ℓ} : {A : Type ℓ} → ℕ → List A → List A
last_items n xs = drop (length xs - n) xs

pub length-contents : (f : AudioData) → length (contents f) ≡ count f
unfolding contents
length-contents f = length-window f.buf f.p_out (count f)

length-kept :
    (f : AudioData)
    → IsValid f
    → length (kept f) ≡ (
        if f.p_in == f.p_out
        then 0
        else (if ltb f.p_out f.p_in then f.p_in - f.p_out else buf_length - f.p_out + f.p_in))
unfolding kept count
length-kept f v = ground (arith, length-contents f)

kept_at :
    (f : AudioData) (k : ℕ)
    → IsValid f
    → k < length (kept f)
    → get_or (kept f) k 0 ≡ f.buf ((f.p_out + k) % buf_length)
unfolding kept contents
kept_at f k v h = elim (Bool-cases (f.p_in == f.p_out)) [
  | inl e ↦ absurd (ground arith)
  | inr e ↦
      rw e (get_or-window f.buf f.p_out (count f) k v.out_bound (ground (arith, length-contents f)))
]

count-in :
    (f : AudioData) (xs : List ℕ)
    → IsValid f
    → 0 < length xs
    → length xs ≤ buf_length
    → count (adata_fifo_in f xs) ≡ length (last_items buf_length (kept f ++ xs))
unfolding adata_fifo_in count last_items
count-in f xs v pos fits = ground (
  arith,
  length-kept f v,
  length-append (kept f) xs,
  length-drop (length (kept f ++ xs) - buf_length) (kept f ++ xs),
)

buf-in : (f : AudioData) (xs : List ℕ) (i : ℕ) → (adata_fifo_in f xs).buf i ≡ fill f.buf f.p_in xs i
unfolding adata_fifo_in
buf-in f xs i = elim (Bool-cases (ltb (length xs) (room f.p_in f.p_out))) [
  | inl e ↦ rw e
  | inr e ↦ rw e
]

-- The two sides of the equation below, at an index.
written_at :
    (f : AudioData) (xs : List ℕ) (k : ℕ)
    → IsValid f
    → 0 < length xs
    → length xs ≤ buf_length
    → k < count (adata_fifo_in f xs)
    → let i = ((adata_fifo_in f xs).p_out + k) % buf_length in
      get_or (contents (adata_fifo_in f xs)) k 0 ≡ (
        if ltb ((i + buf_length - f.p_in) % buf_length) (length xs)
        then get_or xs ((i + buf_length - f.p_in) % buf_length) 0
        else f.buf i)
unfolding contents
written_at f xs k v pos fits h =
    let g : AudioData = adata_fifo_in f xs in
    let i : ℕ = (g.p_out + k) % buf_length in
    get_or-window g.buf g.p_out (count g) k (in-IsValid f xs v pos fits).out_bound h
    ∙ buf-in f xs i
    ∙ fill_at f.buf f.p_in i xs v.in_bound (omega arith) fits

kept_and_new_at :
    (f : AudioData) (xs : List ℕ) (k : ℕ)
    → IsValid f
    → let l = length (kept f) in
      let d = l + length xs - buf_length in
      get_or (last_items buf_length (kept f ++ xs)) k 0 ≡ (
        if ltb (d + k) l then f.buf ((f.p_out + (d + k)) % buf_length) else get_or xs (d + k - l) 0)
unfolding last_items
kept_and_new_at f xs k v =
    let l : ℕ = length (kept f) in
    let d : ℕ = length (kept f ++ xs) - buf_length in
    ground (
      arith,
      length-append (kept f) xs,
      get_or-drop d (kept f ++ xs) k 0,
      get_or-append (kept f) xs (d + k) 0,
      kept_at f (l + length xs - buf_length + k) v,
    )

-- An index of the new contents lies among the kept bytes or among the new ones.
places :
    (f : AudioData) (xs : List ℕ) (k : ℕ)
    → IsValid f
    → 0 < length xs
    → length xs ≤ buf_length
    → k < count (adata_fifo_in f xs)
    → let i = ((adata_fifo_in f xs).p_out + k) % buf_length in
      let m = (i + buf_length - f.p_in) % buf_length in
      let l = length (kept f) in
      let d = l + length xs - buf_length in
      ((d + k < l) × (length xs ≤ m) × (i ≡ (f.p_out + (d + k)) % buf_length))
      ⊎ ((l ≤ d + k) × (m < length xs) × (m ≡ d + k - l))
unfolding adata_fifo_in count
places f xs k v pos fits h = ground (arith, length-kept f v)

in_at :
    (f : AudioData) (xs : List ℕ) (k : ℕ)
    → IsValid f
    → 0 < length xs
    → length xs ≤ buf_length
    → k < count (adata_fifo_in f xs)
    → get_or (contents (adata_fifo_in f xs)) k 0 ≡ get_or (last_items buf_length (kept f ++ xs)) k 0
in_at f xs k v pos fits h =
    written_at f xs k v pos fits h ∙ between ∙ sym (kept_and_new_at f xs k v)
  where
    i : ℕ
    i = ((adata_fifo_in f xs).p_out + k) % buf_length

    m : ℕ
    m = (i + buf_length - f.p_in) % buf_length

    l : ℕ
    l = length (kept f)

    d : ℕ
    d = l + length xs - buf_length

    between : (if ltb m (length xs) then get_or xs m 0 else f.buf i) ≡ (
        if ltb (d + k) l then f.buf ((f.p_out + (d + k)) % buf_length) else get_or xs (d + k - l) 0)
    between = elim (places f xs k v pos fits h) [ inl old ↦ ground arith | inr new ↦ ground arith ]

-- Writing a block of 1 to 4096 bytes to a valid FIFO leaves in it the last 4096 of the bytes
-- that it keeps followed by the block. It keeps all that it holds, but nothing where the two
-- indices are equal.
pub in-contents :
    (f : AudioData) (xs : List ℕ)
    → IsValid f
    → 0 < length xs
    → length xs ≤ buf_length
    → contents (adata_fifo_in f xs) ≡ last_items buf_length (kept f ++ xs)
in-contents f xs v pos fits =
    list_ext (contents (adata_fifo_in f xs)) (last_items buf_length (kept f ++ xs)) 0
      (length-contents (adata_fifo_in f xs) ∙ count-in f xs v pos fits)
      (λ k h. in_at f xs k v pos fits (omega (arith, length-contents (adata_fifo_in f xs))))
