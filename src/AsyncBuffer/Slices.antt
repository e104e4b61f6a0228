-- ===== src/AsyncBuffer/Slices.antt =====
-- A part of a byte slice, and what a write leaves of it.
use logger_double_buffer.Base.{
  ℕ, zero, suc, ◌+◌, ◌-◌, ◌≤◌, ◌≡◌, refl, sym, ap, ◌∙◌, List, [], ◌∷◌, ◌++◌, arith, length, take,
  drop, length-take, length-drop, take-append, drop-append, take-append_le, drop-append_le,
  drop-take, take-take, take-append-drop,
}
use logger_double_buffer.Base.Bytes.{Bytes, write_at}

-- buf[lo : lo + n]
abbrev pub slice : Bytes → ℕ → ℕ → Bytes
slice buf lo n = take n (drop lo buf)

drop-nil {ℓ} : {A : Type ℓ} (n : ℕ) → drop {A = A} n [] ≡ []
drop-nil zero = refl
drop-nil (suc n) = refl

drop-drop {ℓ} : {A : Type ℓ} (m n k : ℕ) (xs : List A) → n + m ≡ k → drop m (drop n xs) ≡ drop k xs
drop-drop m zero k xs e = ap (λ (j : ℕ). drop j xs) (omega arith)
drop-drop m (suc n) zero xs e = absurd (omega arith)
drop-drop m (suc n) (suc k) [] e = drop-nil m
drop-drop m (suc n) (suc k) (x ∷ xs) e = drop-drop m n k xs (omega arith)

-- What lies behind the first part of a concatenation.
drop-append_ge {ℓ} :
    {A : Type ℓ} (xs ys : List A) (n k : ℕ) → n ≡ length xs + k → drop n (xs ++ ys) ≡ drop k ys
drop-append_ge xs ys n k e =
    sym (drop-drop k (length xs) n (xs ++ ys) (sym e))
    ∙ ap (drop k) (drop-append xs ys (length xs) refl)

module _ (buf : Bytes) (pos : ℕ) (src : Bytes) (fits : pos + length src ≤ length buf) where
  before-size : length (take pos buf) ≡ pos
  before-size = omega (arith, length-take pos buf)

  -- A write leaves what lies before it and behind it.
  pub slice-before : (lo n : ℕ) → lo + n ≤ pos → slice (write_at buf pos src) lo n ≡ slice buf lo n
  unfolding write_at
  slice-before lo n h =
      let size = before-size in
      let cut =
        drop-append_le (take pos buf) (src ++ drop (pos + length src) buf) lo (omega arith) in
      ap (take n) cut
      ∙ (take-append_le (drop lo (take pos buf)) (src ++ drop (pos + length src) buf) n
            (omega (arith, length-drop lo (take pos buf)))
          ∙ (ap (take n) (drop-take lo pos buf)
              ∙ take-take n (pos - lo) (drop lo buf) (omega arith)))

  pub slice-behind :
      (lo n : ℕ) → pos + length src ≤ lo → slice (write_at buf pos src) lo n ≡ slice buf lo n
  unfolding write_at
  slice-behind lo n h =
      let size = before-size in
      ap (take n) (
        drop-append_ge (take pos buf) (src ++ drop (pos + length src) buf) lo (lo - pos)
          (omega arith)
        ∙ (drop-append_ge src (drop (pos + length src) buf) (lo - pos) (lo - (pos + length src))
              (omega arith)
            ∙ drop-drop (lo - (pos + length src)) (pos + length src) lo buf (omega arith)))

  -- What was written is there.
  pub slice-written : (n : ℕ) → n ≡ length src → slice (write_at buf pos src) pos n ≡ src
  unfolding write_at
  slice-written n e =
      let size = before-size in
      ap (take n)
        (drop-append (take pos buf) (src ++ drop (pos + length src) buf) pos (omega arith))
      ∙ take-append src (drop (pos + length src) buf) n e

take-append_ge {ℓ} :
    {A : Type ℓ} (xs ys : List A) (n k : ℕ)
    → n ≡ length xs + k
    → take n (xs ++ ys) ≡ xs ++ take k ys
take-append_ge [] ys n k e = ap (λ (j : ℕ). take j ys) (omega arith)
take-append_ge (x ∷ xs) ys zero k e = absurd (omega arith)
take-append_ge (x ∷ xs) ys (suc n) k e = ap (◌∷◌ x) (take-append_ge xs ys n k (omega arith))

-- Two slices that meet.
pub slice-append :
    (buf : Bytes) (lo m n : ℕ)
    → lo + m ≤ length buf
    → slice buf lo (m + n) ≡ slice buf lo m ++ slice buf (lo + m) n
slice-append buf lo m n h =
    let size = length-take m (drop lo buf) in
    let rest = length-drop lo buf in
    ap (take (m + n)) (sym (take-append-drop m (drop lo buf)))
    ∙ (take-append_ge (take m (drop lo buf)) (drop m (drop lo buf)) (m + n) n (omega arith)
        ∙ ap (λ xs. take m (drop lo buf) ++ take n xs) (drop-drop m lo (lo + m) buf refl))
