-- ===== src/FileWriter/Contents.antt =====
-- What WriteVectored leaves in the files.
use logger_double_buffer.Base.{
  ℕ, ◌+◌, ◌%◌, ◌^◌, ◌≤◌, ◌<◌, ◌≡◌, ◌≢◌, ◌⊎◌, inl, inr, refl, sym, ap, ◌∙◌, Bool, true, false, some,
  List, [], ◌∷◌, ◌++◌, arith, length, take,
}
use logger_double_buffer.Base.Int.{not_positive, pos_part}
use logger_double_buffer.Base.Bytes.{Bytes}
use logger_double_buffer.FileWriter.{
  after_pwritev, Kernel, SizeFileWriter, non_empty, rotate_if_needed, writev_aligned_with_offset,
  write_vectored,
}
use logger_double_buffer.FileWriter.Rotation.{rotate_below_limit}
use logger_double_buffer.FileWriter.Laws.{joined, View, Laws, rotate-Keeps}

joined-non_empty : (bs : List Bytes) → joined (non_empty bs) ≡ joined bs
unfolding non_empty
joined-non_empty [] = refl
joined-non_empty ([] ∷ bs) = joined-non_empty bs
joined-non_empty ((x ∷ b) ∷ bs) = ap (λ w. (x ∷ b) ++ w) (joined-non_empty bs)

list_cases : (bs : List Bytes) → (bs ≡ []) ⊎ ((c : Bytes) × (cs : List Bytes) × (bs ≡ c ∷ cs))
list_cases [] = inl refl
list_cases (b ∷ bs) = inr (b, bs, refl)

module _ {K : Type 0} (os : Kernel K) (view : View K) (laws : Laws os view) where
  rotate-stays :
      (w : SizeFileWriter K) (now early : ℕ)
      → (not_positive w.max_file_size ≡ true) ⊎ (w.file_offset < pos_part w.max_file_size)
      → ((rotate_if_needed os w now early).1.file ≡ w.file)
        × ((rotate_if_needed os w now early).1.file_offset ≡ w.file_offset)
  unfolding rotate_if_needed
  rotate-stays w now early (inl off) = (ground arith, ground arith)
  rotate-stays w now early (inr below) =
      let kept = rotate_below_limit os w now early below in (kept.1, kept.3)

  nothing_left : (c : Bytes) (cs : List Bytes) → non_empty [] ≢ c ∷ cs
  unfolding non_empty
  nothing_left c cs e = cc

  writev-call :
      (k : K) (fd : ℕ) (buffers : List Bytes) (offset : ℕ) (c : Bytes) (cs : List Bytes)
      → non_empty buffers ≡ c ∷ cs
      → writev_aligned_with_offset os k fd buffers offset ≡ os.pwritev k fd (c ∷ cs) offset
  unfolding writev_aligned_with_offset
  writev-call k fd buffers offset c cs e = rw (writev_aligned_with_offset, e) refl

  after_pwritev-result :
      (w : SizeFileWriter K) (q : (ℕ × Bool) × K) → (after_pwritev os w q).0 ≡ q.0
  after_pwritev-result w ((n, true), k) = refl
  after_pwritev-result w ((n, false), k) = refl

  after_pwritev-done :
      (w : SizeFileWriter K) (q : (ℕ × Bool) × K)
      → q.0.1 ≡ false
      → after_pwritev os w q
        ≡ (q.0, record w { kernel = q.1; file_offset = (w.file_offset + q.0.0) % 2 ^ 64 })
  after_pwritev-done w ((n, true), k) e = absurd (cc)
  after_pwritev-done w ((n, false), k) e = refl

  module _ (w : SizeFileWriter K) (now early : ℕ) where
    abbrev rotated : Bool × SizeFileWriter K
    rotated = rotate_if_needed os w now early

    -- A write that goes on after the rotation, where some buffer is not empty.
    write_vectored-call :
        (buffers : List Bytes) (c : Bytes) (cs : List Bytes) (fd : ℕ)
        → rotated.0 ≡ false
        → rotated.1.file ≡ some fd
        → non_empty buffers ≡ c ∷ cs
        → write_vectored os w now early buffers
          ≡ after_pwritev os rotated.1
              (os.pwritev rotated.1.kernel fd (c ∷ cs) rotated.1.file_offset)
    unfolding write_vectored
    write_vectored-call [] c cs fd went current e = absurd (nothing_left c cs e)
    write_vectored-call (b ∷ bs) c cs fd went current e =
        rw (went, current, writev-call rotated.1.kernel fd (b ∷ bs) rotated.1.file_offset c cs e)
          refl

    write_vectored-went :
        (buffers : List Bytes)
        → 0 < length (joined buffers)
        → (write_vectored os w now early buffers).0.1 ≡ false
        → rotated.0 ≡ false
    unfolding write_vectored
    write_vectored-went [] some_bytes done = absurd (omega arith)
    write_vectored-went (b ∷ bs) some_bytes done = ground arith

    -- A write that succeeds, by what rotation has left.
    Landed : List Bytes → ℕ → Type 0
    Landed buffers fd =
        let ((n, failed), w') = write_vectored os w now early buffers in
        (w'.file ≡ some fd)
        × (w'.file_offset ≡ (rotated.1.file_offset + n) % 2 ^ 64)
        × (n ≤ length (joined buffers))
        × (view.read w'.kernel fd (rotated.1.file_offset + n)
            ≡ view.read rotated.1.kernel fd rotated.1.file_offset ++ take n (joined buffers))

    write_vectored_call-Landed :
        (buffers : List Bytes) (c : Bytes) (cs : List Bytes) (fd : ℕ)
        → rotated.0 ≡ false
        → rotated.1.file ≡ some fd
        → non_empty buffers ≡ c ∷ cs
        → (write_vectored os w now early buffers).0.1 ≡ false
        → Landed buffers fd
    unfolding Landed
    write_vectored_call-Landed buffers c cs fd went current e done =
        let q = os.pwritev rotated.1.kernel fd (c ∷ cs) rotated.1.file_offset in
        let call = write_vectored-call buffers c cs fd went current e in
        let same : joined (c ∷ cs) ≡ joined buffers =
          ap joined (sym e) ∙ joined-non_empty buffers in
        let ok : q.0.1 ≡ false =
          sym (ap (λ x. x.1) (after_pwritev-result rotated.1 q))
          ∙ (ap (λ x. x.0.1) (sym call) ∙ done) in
        let few = laws.taken rotated.1.kernel fd (c ∷ cs) rotated.1.file_offset in
        let put = laws.written rotated.1.kernel fd (c ∷ cs) rotated.1.file_offset ok in
        let whole = call ∙ after_pwritev-done rotated.1 q ok in
        rw (whole, ← same) (current, refl, few, put)

    write_vectored-Landed :
        (buffers : List Bytes) (fd : ℕ)
        → rotated.1.file ≡ some fd
        → 0 < length (joined buffers)
        → (write_vectored os w now early buffers).0.1 ≡ false
        → Landed buffers fd
    write_vectored-Landed buffers fd current some_bytes done =
        let went = write_vectored-went buffers some_bytes done in
        elim (list_cases (non_empty buffers)) [
          | inl e ↦
              let size = ap (λ bs. length (joined bs)) e in
              let same = ap length (joined-non_empty buffers) in absurd (omega arith)
          | inr (c, cs, e) ↦ write_vectored_call-Landed buffers c cs fd went current e done
        ]

  -- Over a kernel that keeps the laws, a write that succeeds, of buffers that hold some bytes, with
  -- the current file open under its path, where rotation is off or the offset is below the size
  -- limit, in a second other than the one that this path was made of, and where the offset cannot
  -- reach 2^64: the current file stays, what it held up to the offset is still there, behind it stand
  -- the bytes that the kernel took, which are the first ones of the buffers, and the offset has moved
  -- by their number.
  pub write_vectored-appends :
      (w : SizeFileWriter K) (now early : ℕ) (buffers : List Bytes) (fd : ℕ)
      → w.file ≡ some fd
      → view.path w.kernel fd ≡ some w.file_path
      → w.file_path ≢ now
      → (not_positive w.max_file_size ≡ true) ⊎ (w.file_offset < pos_part w.max_file_size)
      → 0 < length (joined buffers)
      → w.file_offset + length (joined buffers) < 2 ^ 64
      → (write_vectored os w now early buffers).0.1 ≡ false
      → let ((n, failed), w') = write_vectored os w now early buffers in
        (w'.file ≡ some fd)
        × (w'.file_offset ≡ w.file_offset + n)
        × (n ≤ length (joined buffers))
        × (view.read w'.kernel fd w'.file_offset
            ≡ view.read w.kernel fd w.file_offset ++ take n (joined buffers))
  unfolding Landed
  write_vectored-appends w now early buffers fd current at other below some_bytes small done =
      let (same_file, same_offset) = rotate-stays w now early below in
      let keeps = rotate-Keeps os view laws w now early fd w.file_path below at other in
      let (file, moved, few, put) =
        write_vectored-Landed w now early buffers fd (same_file ∙ current) some_bytes done in
      let n = (write_vectored os w now early buffers).0.0 in
      let offset : (write_vectored os w now early buffers).1.file_offset ≡ w.file_offset + n =
        omega arith in
      (
        file,
        offset,
        few,
        ap (λ m. view.read (write_vectored os w now early buffers).1.kernel fd m)
              (offset ∙ ap (λ m. m + n) (sym same_offset))
            ∙ (put
                ∙ ap (λ c. c ++ take n (joined buffers))
                    (ap (λ m. view.read (rotated w now early).1.kernel fd m) same_offset
                      ∙ keeps.1 w.file_offset)),
      )
