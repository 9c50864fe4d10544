-- ===== src/Audio/Fifo/Read.antt =====
-- What a read takes from a FIFO, and what it leaves.
use mathlib.Core.Path.{ap₂, subst}
use avserver.Base.{
  ℕ, zero, suc, ◌+◌, ◌-◌, ◌%◌, ◌<◌, ◌≤◌, ◌≡◌, ◌≢◌, refl, ◌∙◌, ap, sym, true, false, List, [], ◌∷◌,
  ◌++◌, arith, ltb, ◌==◌, if◌then◌else◌, Bool-cases, inl, inr, ◌⊎◌, ◌⊎◌, length,
}
use avserver.Audio.Fifo.{
  buf_length, slice_size, Stat, normal, empty, full, AudioData, copy_out, adata_fifo_out, slices,
  out_straight, out_round, out_bytes, is_empty,
}
use avserver.Audio.Fifo.Contents.{window, count, contents, IsValid, length-window}

window-append :
    (buf : ℕ → ℕ) (p m n : ℕ)
    → p < buf_length
    → window buf p (m + n) ≡ window buf p m ++ window buf ((p + m) % buf_length) n
unfolding window
window-append buf p zero n hp =
    ap₂ (window buf) {x = p} {y = (p + 0) % buf_length} {u = 0 + n} {v = n} (omega arith)
      (omega arith)
window-append buf p (suc m) n hp =
    ap (window buf p) {x = suc m + n} {y = suc (m + n)} (omega arith)
    ∙ ap (λ l. buf p ∷ l)
        (window-append buf ((p + 1) % buf_length) m n (omega arith)
          ∙ ap (λ q. window buf ((p + 1) % buf_length) m ++ window buf q n)
              {x = ((p + 1) % buf_length + m) % buf_length} {y = (p + suc m) % buf_length}
              (omega arith))

-- A copy that stays inside the buffer.
copy_out-eq-window :
    (buf : ℕ → ℕ) (p n : ℕ) → p + n ≤ buf_length → copy_out buf p n ≡ window buf p n
unfolding copy_out window
copy_out-eq-window buf p zero h = refl
copy_out-eq-window buf p (suc zero) h = refl
copy_out-eq-window buf p (suc (suc n)) h =
    ap (λ l. buf p ∷ l)
      (copy_out-eq-window buf (p + 1) (suc n) (omega arith)
        ∙ ap (λ q. window buf q (suc n)) {x = p + 1} {y = (p + 1) % buf_length} (omega arith))

slices-le : (b max_len : ℕ) → slices b max_len ≤ b
unfolding slices
slices-le b max_len = ground arith

-- The branch that may go round the end copies the same bytes in two parts.
round_bytes :
    (buf : ℕ → ℕ) (p len : ℕ)
    → p < buf_length
    → buf_length < p + len
    → len ≤ buf_length
    → copy_out buf p (buf_length - p) ++ copy_out buf 0 (p + len - buf_length) ≡ window buf p len
round_bytes buf p len hp h le =
    let m : ℕ = buf_length - p in
    let n : ℕ = p + len - buf_length in
    ap₂ ◌++◌ (copy_out-eq-window buf p m (omega arith)) (
      copy_out-eq-window buf 0 n (omega arith)
      ∙ ap (λ q. window buf q n) {x = 0} {y = (p + m) % buf_length} (omega arith))
    ∙ sym (window-append buf p m n hp)
    ∙ ap (window buf p) {x = m + n} {y = len} (omega arith)

abbrev pair : List ℕ → ℕ → List ℕ × ℕ
pair xs n = (xs, n)

out_straight_lem :
    (f : AudioData) (max_len : ℕ)
    → IsValid f
    → f.p_out < f.p_in
    → let len = slices (f.p_in - f.p_out) max_len in
      out_straight f max_len ≡ (window f.buf f.p_out len, (f.p_out + len) % buf_length)
unfolding out_straight
out_straight_lem f max_len v h =
    let b : ℕ = f.p_in - f.p_out in
    ap₂ pair
      (copy_out-eq-window f.buf f.p_out (slices b max_len) (omega (arith, slices-le b max_len)))
      (omega (arith, slices-le b max_len))

out_round_lem :
    (f : AudioData) (max_len : ℕ)
    → IsValid f
    → f.p_in ≤ f.p_out
    → let len = slices (buf_length - f.p_out + f.p_in) max_len in
      out_round f max_len ≡ (window f.buf f.p_out len, (f.p_out + len) % buf_length)
unfolding out_round
out_round_lem f max_len v h =
    let b : ℕ = buf_length - f.p_out + f.p_in in
    let len : ℕ = slices b max_len in
    let short : len ≤ buf_length = omega (arith, slices-le b max_len) in
    elim (Bool-cases (ltb buf_length (f.p_out + len))) [
      | inl e ↦
          rw e (
            ap₂ pair (round_bytes f.buf f.p_out len v.out_bound (ground arith) short) (omega arith))
      | inr e ↦ rw e (ap₂ pair (copy_out-eq-window f.buf f.p_out len (ground arith)) refl)
    ]

count_straight :
    (f : AudioData) → f.stat ≢ empty → ltb f.p_out f.p_in ≡ true → count f ≡ f.p_in - f.p_out
unfolding count
count_straight f ne e = ground arith

count_round :
    (f : AudioData)
    → f.stat ≢ empty
    → ltb f.p_out f.p_in ≡ false
    → count f ≡ buf_length - f.p_out + f.p_in
unfolding count
count_round f ne e = ground arith

-- The bytes of a read, whichever branch makes it.
out_bytes_lem :
    (f : AudioData) (max_len : ℕ)
    → IsValid f
    → f.stat ≢ empty
    → out_bytes f max_len ≡ (
      window f.buf f.p_out (slices (count f) max_len),
      (f.p_out + slices (count f) max_len) % buf_length,
    )
unfolding out_bytes
out_bytes_lem f max_len v ne = elim (Bool-cases (ltb f.p_out f.p_in)) [
  | inl e ↦ rw (e, count_straight f ne e) (out_straight_lem f max_len v (ground arith))
  | inr e ↦ rw (e, count_round f ne e) (out_round_lem f max_len v (ground arith))
]

empty_cases : (s : Stat) → (s ≡ empty) ⊎ (s ≢ empty)
empty_cases normal = inr (λ e. cc)
empty_cases empty = inl refl
empty_cases full = inr (λ e. cc)

not_empty : (s : Stat) → s ≢ empty → is_empty s ≡ false
unfolding is_empty
not_empty normal ne = refl
not_empty empty ne = absurd (ne refl)
not_empty full ne = refl

-- A read of a FIFO that is not empty, by the bytes held.
read-eq :
    (f : AudioData) (max_len : ℕ)
    → IsValid f
    → f.stat ≢ empty
    → let len = slices (count f) max_len in
      let p = (f.p_out + len) % buf_length in
      adata_fifo_out f max_len ≡ (
        window f.buf f.p_out len,
        record f { p_out = p; stat = if f.p_in == p then empty else f.stat },
      )
unfolding adata_fifo_out
read-eq f max_len v ne =
    let held : is_empty f.stat ≡ false = not_empty f.stat ne in
    rw (held, out_bytes_lem f max_len v ne)

-- The number of bytes left.
count-rest :
    (f : AudioData) (max_len : ℕ)
    → IsValid f
    → slice_size ≤ max_len
    → f.stat ≢ empty
    → let len = slices (count f) max_len in
      let p = (f.p_out + len) % buf_length in
      count (record f { p_out = p; stat = if f.p_in == p then empty else f.stat }) ≡ count f - len
unfolding count slices
count-rest f max_len v one ne = ground arith

read_empty : (f : AudioData) (max_len : ℕ) → f.stat ≡ empty → adata_fifo_out f max_len ≡ ([], f)
unfolding adata_fifo_out
read_empty f max_len e = ground arith

nothing_held : (f : AudioData) (max_len : ℕ) → f.stat ≡ empty → slices (count f) max_len ≡ 0
unfolding slices count
nothing_held f max_len e = ground arith

-- The number is the largest multiple of a slice of 160 bytes that is at most each of two numbers.
pub record IsLargest (held room n : ℕ) : Type 0 where
  pub of_slices : n % 160 ≡ 0
  pub at_most_held : n ≤ held
  pub at_most_room : n ≤ room
  pub largest : (held < n + 160) ⊎ (room < n + 160)

slices-IsLargest : (b max_len : ℕ) → IsLargest b max_len (slices b max_len)
unfolding slices
slices-IsLargest b max_len = elim (Bool-cases (ltb max_len b)) [
  | inl e ↦ rw e (record {
    of_slices = omega arith;
    at_most_held = ground arith;
    at_most_room = omega arith;
    largest = inr (omega arith);
  })
  | inr e ↦ rw e (record {
    of_slices = omega arith;
    at_most_held = omega arith;
    at_most_room = ground arith;
    largest = inl (omega arith);
  })
]

read_bytes :
    (f : AudioData) (max_len : ℕ)
    → IsValid f
    → slice_size ≤ max_len
    → let (bytes, g) = adata_fifo_out f max_len in
      (bytes ++ contents g ≡ contents f) × (length bytes ≡ slices (count f) max_len)
read_bytes f max_len v one = elim (empty_cases f.stat) [
  | inl e ↦ nothing e
  | inr ne ↦ rw (read-eq f max_len v ne) (some_bytes ne)
]
  where
    nothing :
        f.stat ≡ empty
        → let (bytes, g) = adata_fifo_out f max_len in
          (bytes ++ contents g ≡ contents f) × (length bytes ≡ slices (count f) max_len)
    nothing e = rw (read_empty f max_len e) (refl, sym (nothing_held f max_len e))

    some_bytes :
        (ne : f.stat ≢ empty)
        → let len = slices (count f) max_len in
          let p = (f.p_out + len) % buf_length in
          (window f.buf f.p_out len
              ++ contents (record f { p_out = p; stat = if f.p_in == p then empty else f.stat })
            ≡ contents f)
          × (length (window f.buf f.p_out len) ≡ len)
    some_bytes ne =
        let len : ℕ = slices (count f) max_len in
        let p : ℕ = (f.p_out + len) % buf_length in
        (
          unfold contents in
              ap (λ n. window f.buf f.p_out len ++ window f.buf p n) (count-rest f max_len v one ne)
              ∙ sym (window-append f.buf f.p_out len (count f - len) v.out_bound)
              ∙ ap (window f.buf f.p_out) {x = len + (count f - len)} {y = count f}
                  (omega (arith, slices-le (count f) max_len)),
          length-window f.buf f.p_out len,
        )

-- Reading from a valid FIFO into a buffer of at least one slice (160 bytes) returns its oldest
-- bytes: they and the contents left over are the contents before, and their number is the
-- largest multiple of 160 that is neither more than the bytes held nor more than the buffer's
-- length.
pub out-contents :
    (f : AudioData) (max_len : ℕ)
    → IsValid f
    → slice_size ≤ max_len
    → let (bytes, g) = adata_fifo_out f max_len in
      (bytes ++ contents g ≡ contents f) × IsLargest (count f) max_len (length bytes)
out-contents f max_len v one =
    let (e, n) = read_bytes f max_len v one in
    (e, subst (IsLargest (count f) max_len) (sym n) (slices-IsLargest (count f) max_len))
