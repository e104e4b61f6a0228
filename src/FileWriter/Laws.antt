-- ===== src/FileWriter/Laws.antt =====
-- What the kernel is relied on for, and that a rotation below the size limit leaves the current file
-- as it was.
use logger_double_buffer.Base.{
  ℕ, ◌+◌, ◌≤◌, ◌<◌, ◌≡◌, ◌≢◌, ◌⊎◌, inl, inr, refl, ◌∙◌, true, false, Option, none, some, List, [],
  ◌∷◌, ◌++◌, arith, leb, lt→leb, length, take, Bool-cases, Option-cases,
}
use logger_double_buffer.Base.Int.{ℤ, pos, not_positive, pos_part}
use logger_double_buffer.Base.Bytes.{Bytes}
use logger_double_buffer.FileWriter.{
  align_up, with_next, ensure_next, Kernel, SizeFileWriter, preallocate_file, open_direct_io,
  create_next_file, rotate_if_needed,
}

-- The bytes of the buffers, in their order.
abbrev pub joined : List Bytes → Bytes
joined [] = []
joined (b ∷ bs) = b ++ joined bs

-- What is read through an open descriptor: its path, and the first bytes of its file, with zeros
-- behind the file's end.
pub record View (K : Type 0) : Type 0 where
  pub path : K → ℕ → Option ℕ
  pub read : K → ℕ → ℕ → Bytes

-- A descriptor still stands for the same path, with the same contents.
abbrev pub Keeps : {K : Type 0} → View K → K → K → ℕ → Type 0
Keeps view k k' fd =
    (view.path k' fd ≡ view.path k fd) × ((n : ℕ) → view.read k' fd n ≡ view.read k fd n)

-- The documented behaviour of the kernel: a file that is opened gets a descriptor that is not in
-- use, and only the file at its path is truncated; a directory that is made, a range that is
-- allocated, and another descriptor that is closed change no contents; and a write that
-- takes `n` bytes puts the first `n` bytes of the buffers at the offset.
pub record Laws {K : Type 0} (os : Kernel K) (view : View K) : Type 0 where
  pub made : (k : K) (p fd q : ℕ) → view.path k fd ≡ some q → Keeps view k (os.make_dir k p).1 fd
  pub opened :
      (k : K) (p fd q : ℕ) → view.path k fd ≡ some q → q ≢ p → Keeps view k (os.open_file k p).1 fd
  pub fresh :
      (k : K) (p fd q fd' : ℕ)
      → view.path k fd ≡ some q
      → (os.open_file k p).0 ≡ some fd'
      → fd' ≢ fd
  pub allocated :
      (k : K) (fd' size fd q : ℕ)
      → view.path k fd ≡ some q
      → Keeps view k (os.fallocate k fd' size).1 fd
  pub closed :
      (k : K) (fd' fd q : ℕ)
      → view.path k fd ≡ some q
      → fd' ≢ fd
      → Keeps view k (os.close_file k fd').1 fd
  pub nothing : (k : K) (fd : ℕ) → view.read k fd 0 ≡ []
  pub taken :
      (k : K) (fd : ℕ) (bs : List Bytes) (offset : ℕ)
      → (os.pwritev k fd bs offset).0.0 ≤ length (joined bs)
  pub written :
      (k : K) (fd : ℕ) (bs : List Bytes) (offset : ℕ)
      → (os.pwritev k fd bs offset).0.1 ≡ false
      → let ((n, failed), k') = os.pwritev k fd bs offset in
        view.read k' fd (offset + n) ≡ view.read k fd offset ++ take n (joined bs)

module _ {K : Type 0} (os : Kernel K) (view : View K) (laws : Laws os view) where
  Keeps-trans :
      (k k1 k2 : K) (fd : ℕ) → Keeps view k k1 fd → Keeps view k1 k2 fd → Keeps view k k2 fd
  Keeps-trans k k1 k2 fd a b = (b.0 ∙ a.0, λ n. b.1 n ∙ a.1 n)

  preallocate_file-Keeps :
      (k : K) (fd' : ℕ) (size : ℤ) (fd q : ℕ)
      → view.path k fd ≡ some q
      → fd' ≢ fd
      → Keeps view k (preallocate_file os k fd' size).1 fd
  unfolding preallocate_file
  preallocate_file-Keeps k fd' size fd q at other =
      let r = os.fallocate k fd' (align_up (pos_part size)) in
      let a = laws.allocated k fd' (align_up (pos_part size)) fd q at in
      elim (Bool-cases (not_positive size)) [
        | inl e ↦ rw e (refl, λ n. refl)
        | inr e ↦ elim (Bool-cases r.0) [
          | inl bad ↦
              rw (e, bad)
                (Keeps-trans k r.1 (os.close_file r.1 fd').1 fd a
                  (laws.closed r.1 fd' fd q (a.0 ∙ at) other))
          | inr ok ↦ rw (e, ok) a
        ]
      ]

  open_direct_io-Keeps :
      (k : K) (p : ℕ) (size : ℤ) (fd q : ℕ)
      → view.path k fd ≡ some q
      → q ≢ p
      → Keeps view k (open_direct_io os k p size).1 fd
  unfolding open_direct_io
  open_direct_io-Keeps k p size fd q at other =
      let k1 = (os.make_dir k p).1 in
      let r = os.open_file k1 p in
      let a = laws.made k p fd q at in
      let b = laws.opened k1 p fd q (a.0 ∙ at) other in
      let ab = Keeps-trans k k1 r.1 fd a b in
      elim (Bool-cases (os.make_dir k p).0) [
        | inl e ↦ rw e a
        | inr e ↦ elim (Option-cases r.0) [
          | inl bad ↦ rw (e, bad) ab
          | inr (fd', ok) ↦
              rw (e, ok)
                (Keeps-trans k r.1 (preallocate_file os r.1 fd' size).1 fd ab (
                  preallocate_file-Keeps r.1 fd' size fd q (ab.0 ∙ at)
                    (laws.fresh k1 p fd q fd' (a.0 ∙ at) ok)))
        ]
      ]

  with_next-kernel :
      (w : SizeFileWriter K) (now : ℕ) (r : Option ℕ × K) → (with_next os w now r).1.kernel ≡ r.1
  with_next-kernel w now (none, k) = refl
  with_next-kernel w now (some fd, k) = refl

  module _ (w : SizeFileWriter K) (now : ℕ) where
    abbrev first_open : Option ℕ × K
    first_open = open_direct_io os w.kernel now w.preallocate_file_size

    create-kernel :
        (first_open.0 ≡ none) ⊎ ((fd : ℕ) × (first_open.0 ≡ some fd))
        → ((create_next_file os w now).1.kernel ≡ first_open.1)
          ⊎ ((create_next_file os w now).1.kernel ≡ (open_direct_io os first_open.1 now (pos 0)).1)
    unfolding create_next_file
    create-kernel (inl bad) =
        inr
          (ground (arith, bad, with_next-kernel w now (open_direct_io os first_open.1 now (pos 0))))
    create-kernel (inr (fd, ok)) = inl (ground (arith, ok))

  create_next_file-Keeps :
      (w : SizeFileWriter K) (now fd q : ℕ)
      → view.path w.kernel fd ≡ some q
      → q ≢ now
      → Keeps view w.kernel (create_next_file os w now).1.kernel fd
  create_next_file-Keeps w now fd q at other =
      let r = open_direct_io os w.kernel now w.preallocate_file_size in
      let r2 = open_direct_io os r.1 now (pos 0) in
      let a = open_direct_io-Keeps w.kernel now w.preallocate_file_size fd q at other in
      let b = open_direct_io-Keeps r.1 now (pos 0) fd q (a.0 ∙ at) other in
      elim (create-kernel w now (Option-cases r.0)) [
        | inl e ↦ rw e a
        | inr e ↦ rw e (Keeps-trans w.kernel r.1 r2.1 fd a b)
      ]

  ensure_next-Keeps :
      (w : SizeFileWriter K) (now fd q : ℕ) (next : Option ℕ)
      → view.path w.kernel fd ≡ some q
      → q ≢ now
      → Keeps view w.kernel (ensure_next os w now next).1.kernel fd
  ensure_next-Keeps w now fd q none at other = create_next_file-Keeps w now fd q at other
  ensure_next-Keeps w now fd q (some fd') at other = (refl, λ n. refl)

  pub rotate-Keeps :
      (w : SizeFileWriter K) (now early fd q : ℕ)
      → (not_positive w.max_file_size ≡ true) ⊎ (w.file_offset < pos_part w.max_file_size)
      → view.path w.kernel fd ≡ some q
      → q ≢ now
      → Keeps view w.kernel (rotate_if_needed os w now early).1.kernel fd
  unfolding rotate_if_needed
  rotate-Keeps w now early fd q (inl off) at other = rw off (refl, λ n. refl)
  rotate-Keeps w now early fd q (inr below) at other =
      elim (Bool-cases (not_positive w.max_file_size)) [
        | inl off ↦ rw off (refl, λ n. refl)
        | inr on ↦
            let room = lt→leb (pos_part w.max_file_size) w.file_offset below in
            elim (Bool-cases (leb early w.file_offset)) [
              | inl near ↦ rw (on, room, near) (ensure_next-Keeps w now fd q w.next_file at other)
              | inr far ↦ rw (on, room, far) (refl, λ n. refl)
            ]
      ]
