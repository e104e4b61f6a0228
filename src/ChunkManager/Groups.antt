-- ===== src/ChunkManager/Groups.antt =====
-- Lists of names in groups, and what is read under them.
use logger_double_buffer.Base.{
  ℕ, zero, suc, ◌+◌, ◌-◌, ◌≤◌, ◌<◌, ◌≡◌, ◌≢◌, refl, sym, ap, ◌∙◌, Option, some, List, [], ◌∷◌, ◌++◌,
  arith, map, length, take, drop, All, length-drop, take-append-drop, append_assoc,
}
use logger_double_buffer.Base.Bytes.{Bytes}
use logger_double_buffer.ChunkManager.{Name, object, chunk, intermediate, split, intermediates}

abbrev pub concat : List Bytes → Bytes
concat [] = []
concat (v ∷ vs) = v ++ concat vs

-- The contents of the named objects, in their order.
abbrev pub Reads : (Name → Option Bytes) → List Name → List Bytes → Type 0
Reads f [] [] = Unit
Reads f [] (v ∷ vs) = ⊥
Reads f (o ∷ os) [] = ⊥
Reads f (o ∷ os) (v ∷ vs) = (f o ≡ some v) × Reads f os vs

concat-append : (vs ws : List Bytes) → concat (vs ++ ws) ≡ concat vs ++ concat ws
concat-append [] ws = refl
concat-append (v ∷ vs) ws = simp (concat-append vs ws, append_assoc)

pub concat-split :
    (fuel max : ℕ) (vs : List Bytes)
    → 1 ≤ max
    → length vs ≤ fuel
    → concat (map concat (split fuel max vs)) ≡ concat vs
unfolding split
concat-split zero max [] h enough = refl
concat-split zero max (v ∷ vs) h enough = absurd (omega arith)
concat-split (suc fuel) max [] h enough = refl
concat-split (suc fuel) max (v ∷ vs) h enough =
    ap (λ w. concat (take max (v ∷ vs)) ++ w)
      (concat-split fuel max (drop max (v ∷ vs)) h (omega (arith, length-drop max (v ∷ vs))))
    ∙ (sym (concat-append (take max (v ∷ vs)) (drop max (v ∷ vs)))
        ∙ ap concat (take-append-drop max (v ∷ vs)))

abbrev pub ReadsAll : (Name → Option Bytes) → List (List Name) → List (List Bytes) → Type 0
ReadsAll f [] [] = Unit
ReadsAll f [] (vs ∷ vss) = ⊥
ReadsAll f (os ∷ oss) [] = ⊥
ReadsAll f (os ∷ oss) (vs ∷ vss) = Reads f os vs × ReadsAll f oss vss

Reads-take :
    (f : Name → Option Bytes) (n : ℕ) (os : List Name) (vs : List Bytes)
    → Reads f os vs
    → Reads f (take n os) (take n vs)
Reads-take f zero os vs r = tt
Reads-take f (suc n) [] [] r = tt
Reads-take f (suc n) [] (v ∷ vs) r = absurd r
Reads-take f (suc n) (o ∷ os) [] r = absurd r
Reads-take f (suc n) (o ∷ os) (v ∷ vs) r = (r.0, Reads-take f n os vs r.1)

Reads-drop :
    (f : Name → Option Bytes) (n : ℕ) (os : List Name) (vs : List Bytes)
    → Reads f os vs
    → Reads f (drop n os) (drop n vs)
Reads-drop f zero os vs r = r
Reads-drop f (suc n) [] [] r = tt
Reads-drop f (suc n) [] (v ∷ vs) r = absurd r
Reads-drop f (suc n) (o ∷ os) [] r = absurd r
Reads-drop f (suc n) (o ∷ os) (v ∷ vs) r = Reads-drop f n os vs r.1

pub length-Reads :
    (f : Name → Option Bytes) (os : List Name) (vs : List Bytes)
    → Reads f os vs
    → length os ≡ length vs
length-Reads f [] [] r = refl
length-Reads f [] (v ∷ vs) r = absurd r
length-Reads f (o ∷ os) [] r = absurd r
length-Reads f (o ∷ os) (v ∷ vs) r = ap suc (length-Reads f os vs r.1)

pub Reads-split :
    (f : Name → Option Bytes) (fuel max : ℕ) (os : List Name) (vs : List Bytes)
    → Reads f os vs
    → ReadsAll f (split fuel max os) (split fuel max vs)
unfolding split
Reads-split f zero max os vs r = tt
Reads-split f (suc fuel) max [] [] r = tt
Reads-split f (suc fuel) max [] (v ∷ vs) r = absurd r
Reads-split f (suc fuel) max (o ∷ os) [] r = absurd r
Reads-split f (suc fuel) max (o ∷ os) (v ∷ vs) r = (
  Reads-take f max (o ∷ os) (v ∷ vs) r,
  Reads-split f fuel max (drop max (o ∷ os)) (drop max (v ∷ vs))
      (Reads-drop f max (o ∷ os) (v ∷ vs) r),
)

-- Two states that agree on the names.
Reads-same :
    (f g : Name → Option Bytes) (os : List Name) (vs : List Bytes)
    → All (λ o. g o ≡ f o) os
    → Reads f os vs
    → Reads g os vs
Reads-same f g [] [] h r = tt
Reads-same f g [] (v ∷ vs) h r = absurd r
Reads-same f g (o ∷ os) [] h r = absurd r
Reads-same f g (o ∷ os) (v ∷ vs) h r = (h.0 ∙ r.0, Reads-same f g os vs h.1 r.1)

pub All-map :
    {A : Type 0} {P Q : A → Type 0} (xs : List A) → ((x : A) → P x → Q x) → All P xs → All Q xs
All-map [] f h = tt
All-map (x ∷ xs) f h = (f x h.0, All-map xs f h.1)

pub ReadsAll-same :
    (f g : Name → Option Bytes) (oss : List (List Name)) (vss : List (List Bytes))
    → All (All (λ o. g o ≡ f o)) oss
    → ReadsAll f oss vss
    → ReadsAll g oss vss
ReadsAll-same f g [] [] h r = tt
ReadsAll-same f g [] (vs ∷ vss) h r = absurd r
ReadsAll-same f g (os ∷ oss) [] h r = absurd r
ReadsAll-same f g (os ∷ oss) (vs ∷ vss) h r =
    (Reads-same f g os vs h.0 r.0, ReadsAll-same f g oss vss h.1 r.1)

All-take : {A : Type 0} (P : A → Type 0) (n : ℕ) (xs : List A) → All P xs → All P (take n xs)
All-take P zero xs h = tt
All-take P (suc n) [] h = tt
All-take P (suc n) (x ∷ xs) h = (h.0, All-take P n xs h.1)

All-drop : {A : Type 0} (P : A → Type 0) (n : ℕ) (xs : List A) → All P xs → All P (drop n xs)
All-drop P zero xs h = h
All-drop P (suc n) [] h = tt
All-drop P (suc n) (x ∷ xs) h = All-drop P n xs h.1

All-split :
    {A : Type 0} (P : A → Type 0) (fuel max : ℕ) (xs : List A)
    → All P xs
    → All (All P) (split fuel max xs)
unfolding split
All-split P zero max xs h = tt
All-split P (suc fuel) max [] h = tt
All-split P (suc fuel) max (x ∷ xs) h = (
  All-take P max (x ∷ xs) h,
  All-split P fuel max (drop max (x ∷ xs)) (All-drop P max (x ∷ xs) h),
)

depth : Name → ℕ
depth (object x) = 0
depth (chunk x i) = 0
depth (intermediate t i) = suc (depth t)

pub target-apart : (target : Name) (i : ℕ) → target ≢ intermediate target i
unfolding depth
target-apart target i e =
    let d : depth target ≡ suc (depth target) = ap depth e in absurd (omega arith)

number : Name → ℕ
number (object x) = 0
number (chunk x i) = 0
number (intermediate t i) = i

pub intermediate-apart :
    (target : Name) (i j : ℕ) → i ≢ j → intermediate target i ≢ intermediate target j
unfolding number
intermediate-apart target i j ne e = ne (ap number e)

-- Each group comes before the intermediate objects whose making would overwrite its names.
abbrev pub Later : Name → ℕ → List (List Name) → Type 0
Later target i [] = Unit
Later target i (g ∷ gs) = All (All (λ o. o ≢ intermediate target i)) gs × Later target (suc i) gs

-- None of the names is an intermediate object of the target.
abbrev pub Outside : Name → List Name → Type 0
Outside target names = All (λ o. (i : ℕ) → o ≢ intermediate target i) names

pub Later-Outside :
    (target : Name) (i fuel max : ℕ) (names : List Name)
    → Outside target names
    → Later target i (split fuel max names)
unfolding split
Later-Outside target i zero max names h = tt
Later-Outside target i (suc fuel) max [] h = tt
Later-Outside target i (suc fuel) max (o ∷ names) h =
    let rest = All-drop _ max (o ∷ names) h in
    (
      All-split _ fuel max (drop max (o ∷ names))
          (All-map (drop max (o ∷ names)) (λ x ne. ne i) rest),
      Later-Outside target (suc i) fuel max (drop max (o ∷ names)) rest,
    )

intermediates-apart :
    (target : Name) (i b n : ℕ)
    → i < b
    → All (λ o. o ≢ intermediate target i) (intermediates target b n)
unfolding intermediates
intermediates-apart target i b zero h = tt
intermediates-apart target i b (suc n) h = (
  intermediate-apart target b i (omega arith),
  intermediates-apart target i (suc b) n (omega arith),
)

cong2 :
    (target : Name) {b c n m : ℕ}
    → b ≡ c
    → n ≡ m
    → intermediates target b n ≡ intermediates target c m
cong2 target e f = rw (e, f)

drop-intermediates :
    (target : Name) (k b n : ℕ)
    → drop k (intermediates target b n) ≡ intermediates target (b + k) (n - k)
unfolding intermediates
drop-intermediates target zero b n = cong2 target (omega arith) (omega arith)
drop-intermediates target (suc k) b zero =
    let e : 0 ≡ 0 - suc k = omega arith in ap (λ (c : ℕ). intermediates target (b + suc k) c) e
drop-intermediates target (suc k) b (suc n) =
    drop-intermediates target k (suc b) n ∙ cong2 target (omega arith) (omega arith)

pub Later-intermediates :
    (target : Name) (i fuel max b n : ℕ)
    → 1 ≤ max
    → i ≤ b
    → Later target i (split fuel max (intermediates target b n))
unfolding split intermediates
Later-intermediates target i zero max b n h le = tt
Later-intermediates target i (suc fuel) max b zero h le = tt
Later-intermediates target i (suc fuel) max b (suc n) h le =
    let rest = drop max (intermediates target b (suc n)) in
    let shape : rest ≡ intermediates target (b + max) (suc n - max) =
      drop-intermediates target max b (suc n) in
    (
      rw shape (
          All-split _ fuel max (intermediates target (b + max) (suc n - max))
            (intermediates-apart target i (b + max) (suc n - max) (omega arith))),
      rw shape
          (Later-intermediates target (suc i) fuel max (b + max) (suc n - max) h (omega arith)),
    )
