-- ===== src/AsyncBuffer/Layout.antt =====
-- The ranges that writers have reserved, one after another from the header on, each with its bytes
-- in place or with the goroutine that is putting them there.
use logger_double_buffer.Base.{
  ℕ, ◌+◌, ◌≤◌, ◌≡◌, ◌⊎◌, inl, inr, refl, sym, ap, subst, Option, none, some, List, [], ◌∷◌, ◌++◌,
  arith, ◌==◌, length, Bool-cases, ==_iff,
}
use logger_double_buffer.Base.Bytes.{Bytes, u32}
use logger_double_buffer.Shard.Contents.{record_of}
use logger_double_buffer.AsyncBuffer.Slices.{slice}
use logger_double_buffer.AsyncBuffer.Steps.{
  Pc, idle, entered, waiting, refusing, reserving, reserved, prefixing, copying, completing,
  tallying, ending, returned, update,
}

-- A reserved range: its payload, and the goroutine that has not filled it yet.
pub record Entry : Type 0 where
  pub payload : Bytes
  pub owner : Option ℕ

abbrev pub size : Bytes → ℕ
size p = 4 + length p

-- A goroutine that has the range at `s` for `p`, and what it has written there.
abbrev pub Owned : Pc → ℕ → Bytes → Bytes → Type 0
Owned (reserved q c) s p bytes = (q ≡ p) × (c ≡ s)
Owned (prefixing q c) s p bytes = (q ≡ p) × (c ≡ s)
Owned (copying q c) s p bytes = (q ≡ p) × (c ≡ s) × (slice bytes s 4 ≡ u32 (length p))
Owned idle s p bytes = ⊥
Owned (entered q) s p bytes = ⊥
Owned (waiting q) s p bytes = ⊥
Owned (refusing q) s p bytes = ⊥
Owned (reserving q c) s p bytes = ⊥
Owned (completing q c) s p bytes = ⊥
Owned (tallying q c) s p bytes = ⊥
Owned (ending q c) s p bytes = ⊥
Owned (returned n flush) s p bytes = ⊥

abbrev pub EntryOk : (ℕ → Pc) → Bytes → ℕ → Bytes → Option ℕ → Type 0
EntryOk pc bytes s p none = slice bytes s (size p) ≡ record_of p
EntryOk pc bytes s p (some i) = Owned (pc i) s p bytes

-- The ranges fill the buffer from `s` up to `o`.
abbrev pub Laid : (ℕ → Pc) → Bytes → ℕ → List Entry → ℕ → Type 0
Laid pc bytes s [] o = s ≡ o
Laid pc bytes s (e ∷ es) o =
    EntryOk pc bytes s e.payload e.owner × Laid pc bytes (s + size e.payload) es o

-- The range at `c` is for `p` and belongs to the goroutine `i`.
abbrev pub Has : ℕ → List Entry → ℕ → Bytes → ℕ → Type 0
Has s [] c p i = ⊥
Has s (e ∷ es) c p i =
    ((s ≡ c) × (e.payload ≡ p) × (e.owner ≡ some i)) ⊎ Has (s + size e.payload) es c p i

pub Laid-le :
    (pc : ℕ → Pc) (bytes : Bytes) (s : ℕ) (log : List Entry) (o : ℕ) → Laid pc bytes s log o → s ≤ o
Laid-le pc bytes s [] o h = omega arith
Laid-le pc bytes s (e ∷ es) o h = omega (arith, Laid-le pc bytes (s + size e.payload) es o h.1)

pub Has-bounds :
    (pc : ℕ → Pc) (bytes : Bytes) (s : ℕ) (log : List Entry) (o c : ℕ) (p : Bytes) (i : ℕ)
    → Laid pc bytes s log o
    → Has s log c p i
    → (s ≤ c) × (c + size p ≤ o)
Has-bounds pc bytes s [] o c p i h has = absurd has
Has-bounds pc bytes s (e ∷ es) o c p i h (inl (at, same, own)) =
    let le = Laid-le pc bytes (s + size e.payload) es o h.1 in
    let len = ap length same in (omega arith, omega arith)
Has-bounds pc bytes s (e ∷ es) o c p i h (inr has) =
    let (lo, hi) = Has-bounds pc bytes (s + size e.payload) es o c p i h.1 has in (omega arith, hi)

-- A goroutine moves on, and still has the ranges that it had.
pub Laid-move :
    (pc : ℕ → Pc) (bytes : Bytes) (i : ℕ) (p' : Pc) (s : ℕ) (log : List Entry) (o : ℕ)
    → ((s' : ℕ) (q : Bytes) → Owned (pc i) s' q bytes → Owned p' s' q bytes)
    → Laid pc bytes s log o
    → Laid (update pc i p') bytes s log o
Laid-move pc bytes i p' s [] o keep h = h
Laid-move pc bytes i p' s (e ∷ es) o keep h =
    (move e.owner h.0, Laid-move pc bytes i p' (s + size e.payload) es o keep h.1)
  where
    move :
        (w : Option ℕ)
        → EntryOk pc bytes s e.payload w
        → EntryOk (update pc i p') bytes s e.payload w
    move none k = k
    move (some j) k = elim (Bool-cases (i == j)) [
      | inl same ↦
          let e' : i ≡ j = (==_iff i j).0 same in
          rw same (keep s e.payload (subst (λ n. Owned (pc n) s e.payload bytes) (sym e') k))
      | inr other ↦ rw other k
    ]

pub Laid-append :
    (pc : ℕ → Pc) (bytes : Bytes) (s : ℕ) (log : List Entry) (o : ℕ) (e : Entry)
    → Laid pc bytes s log o
    → EntryOk pc bytes o e.payload e.owner
    → Laid pc bytes s (log ++ e ∷ []) (o + size e.payload)
Laid-append pc bytes s [] o e h ok =
    (subst (λ n. EntryOk pc bytes n e.payload e.owner) (sym h) ok, omega arith)
Laid-append pc bytes s (d ∷ log) o e h ok =
    (h.0, Laid-append pc bytes (s + size d.payload) log o e h.1 ok)

pub Has-append :
    (s : ℕ) (log es : List Entry) (c : ℕ) (p : Bytes) (i : ℕ)
    → Has s log c p i
    → Has s (log ++ es) c p i
Has-append s [] es c p i h = absurd h
Has-append s (e ∷ log) es c p i (inl h) = inl h
Has-append s (e ∷ log) es c p i (inr h) = inr (Has-append (s + size e.payload) log es c p i h)

pub Has-last :
    (pc : ℕ → Pc) (bytes : Bytes) (s : ℕ) (log : List Entry) (o : ℕ) (p : Bytes) (i : ℕ)
    → Laid pc bytes s log o
    → Has s (log ++ record { payload = p; owner = some i } ∷ []) o p i
Has-last pc bytes s [] o p i h = inl (h, refl, refl)
Has-last pc bytes s (e ∷ log) o p i h = inr (Has-last pc bytes (s + size e.payload) log o p i h.1)
