-- ===== src/AsyncBuffer/Moves.antt =====
-- Writes into one reserved range, and the list of the ranges.
use logger_double_buffer.Base.{
  ℕ, ◌+◌, ◌≤◌, ◌≡◌, ◌≢◌, ◌⊎◌, inl, inr, refl, sym, ap, subst, true, false, Option, some, List, [],
  ◌∷◌, arith, ◌==◌, if◌then◌else◌, length, map, Bool-cases, ==_iff,
}
use logger_double_buffer.Base.Bytes.{Bytes}
use logger_double_buffer.AsyncBuffer.Steps.{Pc}
use logger_double_buffer.AsyncBuffer.Layout.{Entry, size, EntryOk, Laid, Has, Has-bounds}

-- The range at `c` gets the owner `w`.
abbrev pub own : ℕ → ℕ → Option ℕ → List Entry → List Entry
own s c w [] = []
own s c w (e ∷ es) =
    if s == c then record e { owner = w } ∷ es else e ∷ own (s + size e.payload) c w es

pub map-own :
    (s c : ℕ) (w : Option ℕ) (log : List Entry)
    → map (λ (e : Entry). e.payload) (own s c w log) ≡ map (λ (e : Entry). e.payload) log
map-own s c w [] = refl
map-own s c w (e ∷ es) = elim (Bool-cases (s == c)) [
  | inl at ↦ rw at refl
  | inr off ↦ rw off (ap (◌∷◌ e.payload) (map-own (s + size e.payload) c w es))
]

module _ (pc pc' : ℕ → Pc) (bytes bytes' : Bytes) where
  Laid-frame :
      (s : ℕ) (log : List Entry) (o : ℕ)
      → ((a : ℕ) (q : Bytes) (w : Option ℕ)
          → s ≤ a
          → EntryOk pc bytes a q w
          → EntryOk pc' bytes' a q w)
      → Laid pc bytes s log o
      → Laid pc' bytes' s log o
  Laid-frame s [] o keep h = h
  Laid-frame s (e ∷ es) o keep h = (
    keep s e.payload e.owner (omega arith) h.0,
    Laid-frame (s + size e.payload) es o (λ a q w le. keep a q w (omega arith)) h.1,
  )

  -- All ranges but the one at `c` are outside it.
  pub Laid-around :
      (s : ℕ) (log : List Entry) (o c : ℕ) (p : Bytes) (i : ℕ) (w' : Option ℕ)
      → ((a : ℕ) (q : Bytes) (w : Option ℕ)
          → (a + size q ≤ c) ⊎ (c + size p ≤ a)
          → EntryOk pc bytes a q w
          → EntryOk pc' bytes' a q w)
      → EntryOk pc' bytes' c p w'
      → Laid pc bytes s log o
      → Has s log c p i
      → Laid pc' bytes' s (own s c w' log) o
  Laid-around s [] o c p i w' outside inside h has = absurd has
  Laid-around s (e ∷ es) o c p i w' outside inside h (inl (at, same, ow)) =
      let len = ap length same in
      let test : (s == c) ≡ true = (==_iff s c).1 at in
      rw test (
        subst (λ n. EntryOk pc' bytes' n e.payload w') (sym at)
            (subst (λ q. EntryOk pc' bytes' c q w') (sym same) inside),
        Laid-frame (s + size e.payload) es o (λ a q w le. outside a q w (inr (omega arith))) h.1,
      )
  Laid-around s (e ∷ es) o c p i w' outside inside h (inr has) =
      let (lo, hi) = Has-bounds pc bytes (s + size e.payload) es o c p i h.1 has in
      let test : (s == c) ≡ false = ground arith in
      rw test (
        outside s e.payload e.owner (inl lo) h.0,
        Laid-around (s + size e.payload) es o c p i w' outside inside h.1 has,
      )

module _ (pc : ℕ → Pc) (bytes : Bytes) where
  -- The others still have their ranges.
  pub Has-own :
      (s : ℕ) (log : List Entry) (o c : ℕ) (p : Bytes) (i : ℕ) (w : Option ℕ) (c' : ℕ) (p' : Bytes)
      (j : ℕ)
      → i ≢ j
      → Laid pc bytes s log o
      → Has s log c p i
      → Has s log c' p' j
      → Has s (own s c w log) c' p' j
  Has-own s [] o c p i w c' p' j ne h has other = absurd has
  Has-own s (e ∷ es) o c p i w c' p' j ne h (inl (at, same, ow)) (inl (at', same', ow')) =
      absurd (ne (cc))
  Has-own s (e ∷ es) o c p i w c' p' j ne h (inl (at, same, ow)) (inr other) =
      let test : (s == c) ≡ true = (==_iff s c).1 at in rw test (inr other)
  Has-own s (e ∷ es) o c p i w c' p' j ne h (inr has) (inl k) =
      let (lo, hi) = Has-bounds pc bytes (s + size e.payload) es o c p i h.1 has in
      let test : (s == c) ≡ false = ground arith in rw test (inl k)
  Has-own s (e ∷ es) o c p i w c' p' j ne h (inr has) (inr k) =
      let (lo, hi) = Has-bounds pc bytes (s + size e.payload) es o c p i h.1 has in
      let test : (s == c) ≡ false = ground arith in
      rw test (inr (Has-own (s + size e.payload) es o c p i w c' p' j ne h.1 has k))

  pub Has-owner :
      (s : ℕ) (log : List Entry) (o c : ℕ) (p : Bytes) (i : ℕ)
      → Laid pc bytes s log o
      → Has s log c p i
      → Has s (own s c (some i) log) c p i
  Has-owner s [] o c p i h has = absurd has
  Has-owner s (e ∷ es) o c p i h (inl (at, same, ow)) =
      let test : (s == c) ≡ true = (==_iff s c).1 at in rw test (inl (at, same, refl))
  Has-owner s (e ∷ es) o c p i h (inr has) =
      let (lo, hi) = Has-bounds pc bytes (s + size e.payload) es o c p i h.1 has in
      let test : (s == c) ≡ false = ground arith in
      rw test (inr (Has-owner (s + size e.payload) es o c p i h.1 has))
