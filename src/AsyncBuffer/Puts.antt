-- ===== src/AsyncBuffer/Puts.antt =====
-- The two writes into a reserved range, the length prefix and the payload.
use logger_double_buffer.Base.{
  ℕ, ◌+◌, ◌≤◌, ◌≡◌, ◌≢◌, inl, inr, refl, sym, ap, subst, ◌∙◌, Option, none, some, List, [], ◌∷◌,
  ◌++◌, arith, ◌==◌, length, Bool-cases, ==_iff,
}
use logger_double_buffer.Base.Bytes.{Bytes, u32, write_at, length-u32, length-write_at}
use logger_double_buffer.Shard.Contents.{record_of}
use logger_double_buffer.AsyncBuffer.Slices.{
  slice, slice-before, slice-behind, slice-written, slice-append,
}
use logger_double_buffer.AsyncBuffer.Steps.{
  Pc, idle, entered, waiting, refusing, reserving, reserved, prefixing, copying, completing,
  tallying, ending, returned, update, update-same,
}
use logger_double_buffer.AsyncBuffer.Layout.{Entry, size, Owned, EntryOk, Laid, Has, Has-bounds}
use logger_double_buffer.AsyncBuffer.Moves.{own, Laid-around}

-- What a goroutine wrote into its range stays when the slice of its range does.
Owned-bytes :
    (q : Pc) (a : ℕ) (p bytes bytes' : Bytes)
    → slice bytes' a 4 ≡ slice bytes a 4
    → Owned q a p bytes
    → Owned q a p bytes'
Owned-bytes idle a p bytes bytes' e h = h
Owned-bytes (entered q) a p bytes bytes' e h = h
Owned-bytes (waiting q) a p bytes bytes' e h = h
Owned-bytes (refusing q) a p bytes bytes' e h = h
Owned-bytes (reserving q c) a p bytes bytes' e h = h
Owned-bytes (reserved q c) a p bytes bytes' e h = h
Owned-bytes (prefixing q c) a p bytes bytes' e h = h
Owned-bytes (copying q c) a p bytes bytes' e (same, at, put) = (same, at, e ∙ put)
Owned-bytes (completing q c) a p bytes bytes' e h = h
Owned-bytes (tallying q c) a p bytes bytes' e h = h
Owned-bytes (ending q c) a p bytes bytes' e h = h
Owned-bytes (returned n flush) a p bytes bytes' e h = h

-- A goroutine that has a range at `c` has none elsewhere.
abbrev AtOnly : Pc → ℕ → Type 0
AtOnly q c = (a : ℕ) (p bytes : Bytes) → Owned q a p bytes → a ≡ c

pub prefixing-AtOnly : (p : Bytes) (c : ℕ) → AtOnly (prefixing p c) c
prefixing-AtOnly p c a q bytes (same, at) = sym at

pub copying-AtOnly : (p : Bytes) (c : ℕ) → AtOnly (copying p c) c
copying-AtOnly p c a q bytes (same, at, put) = sym at

-- A range outside the one that is written.
outside-EntryOk :
    (pc : ℕ → Pc) (i : ℕ) (p' : Pc) (c : ℕ) (bytes bytes' : Bytes)
    → AtOnly (pc i) c
    → (a : ℕ) (q : Bytes) (w : Option ℕ) → a ≢ c
    → ((n : ℕ) → n ≤ size q → slice bytes' a n ≡ slice bytes a n)
    → EntryOk pc bytes a q w
    → EntryOk (update pc i p') bytes' a q w
outside-EntryOk pc i p' c bytes bytes' only a q none ne same h = same (size q) (omega arith) ∙ h
outside-EntryOk pc i p' c bytes bytes' only a q (some j) ne same h = elim (Bool-cases (i == j)) [
  | inl me ↦
      absurd (ne (only a q bytes (subst (λ n. Owned (pc n) a q bytes) (sym ((==_iff i j).0 me)) h)))
  | inr other ↦ rw other (Owned-bytes (pc j) a q bytes bytes' (same 4 (omega arith)) h)
]

module _ (pc : ℕ → Pc) (bytes : Bytes) (log : List Entry) (o c : ℕ) (p : Bytes) (i : ℕ)
    (h : Laid pc bytes 8 log o) (has : Has 8 log c p i) (fits : o ≤ length bytes) where
  -- The length prefix is put into the range.
  pub Laid-prefix :
      pc i ≡ prefixing p c
      → Laid
          (update pc i (copying p c))
          (write_at bytes c (u32 (length p)))
          8
          (own 8 c (some i) log)
          o
  Laid-prefix e =
      let four = length-u32 (length p) in
      let (lo, hi) = Has-bounds pc bytes 8 log o c p i h has in
      let room : c + length (u32 (length p)) ≤ length bytes = omega arith in
      Laid-around pc (update pc i (copying p c)) bytes (write_at bytes c (u32 (length p))) 8 log o c
        p i (some i)
        (λ a q w side k. elim side [
          | inl before ↦
              outside-EntryOk pc i (copying p c) c bytes (write_at bytes c (u32 (length p)))
                (subst (λ x. AtOnly x c) (sym e) (prefixing-AtOnly p c)) a q w (ground arith)
                (λ n le. slice-before bytes c (u32 (length p)) room a n (omega arith)) k
          | inr behind ↦
              outside-EntryOk pc i (copying p c) c bytes (write_at bytes c (u32 (length p)))
                (subst (λ x. AtOnly x c) (sym e) (prefixing-AtOnly p c)) a q w (ground arith)
                (λ n le. slice-behind bytes c (u32 (length p)) room a n (omega arith)) k
        ])
        (rw (update-same pc i (copying p c))
          (refl, refl, slice-written bytes c (u32 (length p)) room 4 (sym four)))
        h has

  -- The payload is put behind it, and the range is complete.
  pub Laid-payload :
      (p' : Pc)
      → pc i ≡ copying p c
      → slice bytes c 4 ≡ u32 (length p)
      → Laid (update pc i p') (write_at bytes (c + 4) p) 8 (own 8 c none log) o
  Laid-payload p' e put =
      let (lo, hi) = Has-bounds pc bytes 8 log o c p i h has in
      let room : c + 4 + length p ≤ length bytes = omega arith in
      let same = length-write_at bytes (c + 4) p room in
      let joined : slice (write_at bytes (c + 4) p) c (4 + length p) ≡ record_of p =
        slice-append (write_at bytes (c + 4) p) c 4 (length p) (omega arith)
        ∙ (ap (λ xs. xs ++ slice (write_at bytes (c + 4) p) (c + 4) (length p))
              (slice-before bytes (c + 4) p room c 4 (omega arith) ∙ put)
            ∙ ap (λ xs. u32 (length p) ++ xs)
                (slice-written bytes (c + 4) p room (length p) refl)) in
      Laid-around pc (update pc i p') bytes (write_at bytes (c + 4) p) 8 log o c p i none
        (λ a q w side k. elim side [
          | inl before ↦
              outside-EntryOk pc i p' c bytes (write_at bytes (c + 4) p)
                (subst (λ x. AtOnly x c) (sym e) (copying-AtOnly p c)) a q w (ground arith)
                (λ n le. slice-before bytes (c + 4) p room a n (omega arith)) k
          | inr behind ↦
              outside-EntryOk pc i p' c bytes (write_at bytes (c + 4) p)
                (subst (λ x. AtOnly x c) (sym e) (copying-AtOnly p c)) a q w (ground arith)
                (λ n le. slice-behind bytes (c + 4) p room a n (omega arith)) k
        ])
        joined h has

-- What the goroutine itself knows of its range.
pub Has-prefixed :
    (pc : ℕ → Pc) (bytes : Bytes) (s : ℕ) (log : List Entry) (o c : ℕ) (p : Bytes) (i : ℕ)
    → Laid pc bytes s log o
    → Has s log c p i
    → pc i ≡ copying p c
    → slice bytes c 4 ≡ u32 (length p)
Has-prefixed pc bytes s [] o c p i h has e = absurd has
Has-prefixed pc bytes s (d ∷ es) o c p i h (inl (at, same, ow)) e =
    let ok : EntryOk pc bytes s d.payload (some i) =
      subst (λ w. EntryOk pc bytes s d.payload w) ow h.0 in
    let mine : Owned (copying p c) s d.payload bytes =
      subst (λ x. Owned x s d.payload bytes) e ok in
    rw (← at, ← same) mine.2
Has-prefixed pc bytes s (d ∷ es) o c p i h (inr has) e =
    Has-prefixed pc bytes (s + size d.payload) es o c p i h.1 has e
