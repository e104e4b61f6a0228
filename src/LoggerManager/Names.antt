-- ===== src/LoggerManager/Names.antt =====
-- The names under which events are kept.
use logger_double_buffer.Base.{
  ℕ, zero, suc, ◌≤◌, ◌≡◌, ◌≢◌, inl, inr, refl, ap, ap, ◌∙◌, some, [], ◌∷◌, arith, ltb, ◌==◌,
  if◌then◌else◌, length, take, All, length-take, ltb→lt, not_ltb→le, le→ltb, Bool-cases,
}
use logger_double_buffer.Base.Bytes.{Bytes}
use logger_double_buffer.LoggerManager.{
  invalid_chars, underscore, replace_all, replace_each, cut, not_empty, sanitize_event_name,
}

-- None of the listed characters is in the name.
abbrev pub Free : Bytes → Bytes → Type 0
Free [] name = Unit
Free (c ∷ cs) name = All (λ b. b ≢ c) name × Free cs name

abbrev pub IsClean : Bytes → Type 0
IsClean name = Free invalid_chars name

length-replace_all : (c : ℕ) (name : Bytes) → length (replace_all c name) ≡ length name
unfolding replace_all
length-replace_all c [] = refl
length-replace_all c (b ∷ bs) = ap suc (length-replace_all c bs)

length-replace_each : (cs name : Bytes) → length (replace_each cs name) ≡ length name
unfolding replace_each
length-replace_each [] name = refl
length-replace_each (c ∷ cs) name =
    length-replace_each cs (replace_all c name) ∙ length-replace_all c name

-- Replacing `c` removes it, and brings back nothing but underscores.
replace_all-keeps :
    (c d : ℕ) (name : Bytes)
    → d ≢ underscore
    → All (λ b. b ≢ d) name
    → All (λ b. b ≢ d) (replace_all c name)
unfolding replace_all
replace_all-keeps c d [] ne h = tt
replace_all-keeps c d (b ∷ bs) ne h = (ground arith, replace_all-keeps c d bs ne h.1)

replace_all-removes :
    (c : ℕ) (name : Bytes) → c ≢ underscore → All (λ b. b ≢ c) (replace_all c name)
unfolding replace_all
replace_all-removes c [] ne = tt
replace_all-removes c (b ∷ bs) ne = (ground arith, replace_all-removes c bs ne)

replace_each-keeps :
    (cs : Bytes) (d : ℕ) (name : Bytes)
    → d ≢ underscore
    → All (λ b. b ≢ d) name
    → All (λ b. b ≢ d) (replace_each cs name)
unfolding replace_each
replace_each-keeps [] d name ne h = h
replace_each-keeps (c ∷ cs) d name ne h =
    replace_each-keeps cs d (replace_all c name) ne (replace_all-keeps c d name ne h)

replace_each-Free :
    (cs name : Bytes) → All (λ c. c ≢ underscore) cs → Free cs (replace_each cs name)
unfolding replace_each
replace_each-Free [] name ne = tt
replace_each-Free (c ∷ cs) name ne = (
  replace_each-keeps cs c (replace_all c name) ne.0 (replace_all-removes c name ne.0),
  replace_each-Free cs (replace_all c name) ne.1,
)

-- A name that has none of the characters stays as it is.
replace_all-same : (c : ℕ) (name : Bytes) → All (λ b. b ≢ c) name → replace_all c name ≡ name
unfolding replace_all
replace_all-same c [] h = refl
replace_all-same c (b ∷ bs) h =
    let e : (if b == c then underscore else b) ≡ b = ground arith in
    rw (e, replace_all-same c bs h.1)

replace_each-same : (cs name : Bytes) → Free cs name → replace_each cs name ≡ name
unfolding replace_each
replace_each-same [] name h = refl
replace_each-same (c ∷ cs) name h =
    ap (replace_each cs) (replace_all-same c name h.0) ∙ replace_each-same cs name h.1

All-take : (P : ℕ → Type 0) (n : ℕ) (bs : Bytes) → All P bs → All P (take n bs)
All-take P zero bs h = tt
All-take P (suc n) [] h = tt
All-take P (suc n) (b ∷ bs) h = (h.0, All-take P n bs h.1)

Free-take : (cs : Bytes) (n : ℕ) (name : Bytes) → Free cs name → Free cs (take n name)
Free-take [] n name h = tt
Free-take (c ∷ cs) n name h = (All-take (λ b. b ≢ c) n name h.0, Free-take cs n name h.1)

Free-cut : (cs name : Bytes) → Free cs name → Free cs (cut name)
Free-cut cs name h = elim (Bool-cases (ltb 255 (length name))) [
  | inl e ↦ rw e (Free-take cs 255 name h)
  | inr e ↦ rw e h
]

length-cut : (name : Bytes) → 1 ≤ length name → (1 ≤ length (cut name)) × (length (cut name) ≤ 255)
length-cut name h = elim (Bool-cases (ltb 255 (length name))) [
  | inl e ↦
      let long = ltb→lt 255 (length name) e in
      let size = length-take 255 name in rw e (omega arith, omega arith)
  | inr e ↦ let short = not_ltb→le 255 (length name) e in rw e (h, short)
]

not_empty-eq : (name : Bytes) → 1 ≤ length name → not_empty name ≡ some name
not_empty-eq [] h = absurd (omega arith)
not_empty-eq (b ∷ bs) h = refl

cut-same : (name : Bytes) → length name ≤ 255 → cut name ≡ name
cut-same name h = rw (le→ltb 255 (length name) h)

no_underscore : All (λ c. c ≢ underscore) invalid_chars
no_underscore = (
  omega arith,
  (
    omega arith,
    (
      omega arith,
      (
        omega arith,
        (
          omega arith,
          (omega arith, (omega arith, (omega arith, (omega arith, (omega arith, tt))))),
        ),
      ),
    ),
  ),
)

sanitize-eq :
    (name : Bytes)
    → 1 ≤ length name
    → sanitize_event_name name ≡ some (cut (replace_each invalid_chars name))
unfolding sanitize_event_name
sanitize-eq [] h = absurd (omega arith)
sanitize-eq (b ∷ bs) h =
    not_empty-eq (cut (replace_each invalid_chars (b ∷ bs)))
      (length-cut (replace_each invalid_chars (b ∷ bs))
        (omega (arith, length-replace_each invalid_chars (b ∷ bs)))).0

sanitize-clean :
    (name : Bytes)
    → IsClean name
    → 1 ≤ length name
    → length name ≤ 255
    → sanitize_event_name name ≡ some name
sanitize-clean name clean h small =
    sanitize-eq name h
    ∙ ap some (ap cut (replace_each-same invalid_chars name clean) ∙ cut-same name small)

-- Every name that is not empty is sanitized to a name of 1 to 255 bytes without a character that
-- the code replaces, and sanitizing that name again changes nothing.
pub sanitize_event_name-IsClean :
    (name : Bytes)
    → name ≢ []
    → (key : Bytes) × (sanitize_event_name name ≡ some key)
      × IsClean key
      × (1 ≤ length key)
      × (length key ≤ 255)
      × (sanitize_event_name key ≡ some key)
sanitize_event_name-IsClean [] ne = absurd (ne refl)
sanitize_event_name-IsClean (b ∷ bs) ne =
    let replaced = replace_each invalid_chars (b ∷ bs) in
    let long : 1 ≤ length replaced = omega (arith, length-replace_each invalid_chars (b ∷ bs)) in
    let clean =
      Free-cut invalid_chars replaced (replace_each-Free invalid_chars (b ∷ bs) no_underscore) in
    let (low, high) = length-cut replaced long in
    (
      cut replaced,
      sanitize-eq (b ∷ bs) (omega arith),
      clean,
      low,
      high,
      sanitize-clean (cut replaced) clean low high,
    )
