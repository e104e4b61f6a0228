-- ===== src/AsyncBuffer/Known.antt =====
-- What each goroutine knows for its next operation, when another one moves.
use logger_double_buffer.Base.{
  ℕ, ◌+◌, ◌≤◌, ◌<◌, ◌^◌, ◌≡◌, ◌≢◌, inl, inr, subst, Option, List, ◌++◌, arith, ◌==◌, length,
  Bool-cases, ==_iff,
}
use logger_double_buffer.Base.Int32
use logger_double_buffer.Base.Bytes.{Bytes}
use logger_double_buffer.AsyncBuffer.Steps.{
  Pc, idle, entered, waiting, refusing, reserving, reserved, prefixing, copying, completing,
  tallying, ending, returned, update, end_of,
}
use logger_double_buffer.AsyncBuffer.Layout.{Entry, size, Laid, Has, Has-append}
use logger_double_buffer.AsyncBuffer.Moves.{own, Has-own}

-- What a goroutine that stands at an operation knows.
abbrev pub Known : ℕ → ℕ → List Entry → ℕ → Pc → Type 0
Known limit capacity log i idle = Unit
Known limit capacity log i (entered p) = length p ≤ limit
Known limit capacity log i (waiting p) = length p ≤ limit
Known limit capacity log i (refusing p) = length p ≤ limit
Known limit capacity log i (reserving p c) = (length p ≤ limit) × (c + size p < capacity)
Known limit capacity log i (reserved p c) = Has 8 log c p i
Known limit capacity log i (prefixing p c) = Has 8 log c p i
Known limit capacity log i (copying p c) = Has 8 log c p i
Known limit capacity log i (completing p c) = Unit
Known limit capacity log i (tallying p c) = Unit
Known limit capacity log i (ending p c) = Unit
Known limit capacity log i (returned n flush) = Unit

pub end_of-eq : (p : Bytes) (c : ℕ) → c + (4 + length p) < 2 ^ 32 → end_of p c ≡ c + (4 + length p)
unfolding Int32.add
end_of-eq p c h = omega arith

-- A goroutine's knowledge holds for a longer list of ranges.
pub Known-append :
    (limit capacity : ℕ) (log es : List Entry) (i : ℕ) (q : Pc)
    → Known limit capacity log i q
    → Known limit capacity (log ++ es) i q
Known-append limit capacity log es i idle k = k
Known-append limit capacity log es i (entered p) k = k
Known-append limit capacity log es i (waiting p) k = k
Known-append limit capacity log es i (refusing p) k = k
Known-append limit capacity log es i (reserving p c) k = k
Known-append limit capacity log es i (reserved p c) k = Has-append 8 log es c p i k
Known-append limit capacity log es i (prefixing p c) k = Has-append 8 log es c p i k
Known-append limit capacity log es i (copying p c) k = Has-append 8 log es c p i k
Known-append limit capacity log es i (completing p c) k = k
Known-append limit capacity log es i (tallying p c) k = k
Known-append limit capacity log es i (ending p c) k = k
Known-append limit capacity log es i (returned n flush) k = k

-- It holds when another goroutine's range has passed on.
module _ (pc : ℕ → Pc) (bytes : Bytes) (log : List Entry) (o c : ℕ) (p : Bytes) (i : ℕ)
    (w : Option ℕ) (h : Laid pc bytes 8 log o) (has : Has 8 log c p i) where
  pub Known-own :
      (limit capacity j : ℕ) (q : Pc)
      → i ≢ j
      → Known limit capacity log j q
      → Known limit capacity (own 8 c w log) j q
  Known-own limit capacity j idle ne k = k
  Known-own limit capacity j (entered p') ne k = k
  Known-own limit capacity j (waiting p') ne k = k
  Known-own limit capacity j (refusing p') ne k = k
  Known-own limit capacity j (reserving p' c') ne k = k
  Known-own limit capacity j (reserved p' c') ne k =
      Has-own pc bytes 8 log o c p i w c' p' j ne h has k
  Known-own limit capacity j (prefixing p' c') ne k =
      Has-own pc bytes 8 log o c p i w c' p' j ne h has k
  Known-own limit capacity j (copying p' c') ne k =
      Has-own pc bytes 8 log o c p i w c' p' j ne h has k
  Known-own limit capacity j (completing p' c') ne k = k
  Known-own limit capacity j (tallying p' c') ne k = k
  Known-own limit capacity j (ending p' c') ne k = k
  Known-own limit capacity j (returned n flush) ne k = k

-- A claim about each goroutine after one has moved.
pub everyone :
    (P : ℕ → Pc → Type 0) (pc : ℕ → Pc) (i : ℕ) (q : Pc)
    → P i q
    → ((j : ℕ) → i ≢ j → P j (pc j))
    → (j : ℕ) → P j (update pc i q j)
everyone P pc i q mine others j = elim (Bool-cases (i == j)) [
  | inl me ↦ rw me (subst (λ n. P n q) ((==_iff i j).0 me) mine)
  | inr other ↦ rw other (others j (λ e. ground arith))
]
