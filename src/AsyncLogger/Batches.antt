-- ===== src/AsyncLogger/Batches.antt =====
-- The blocks that a list of flushes writes, and what it leaves of the messages.
use logger_double_buffer.Base.{
  ℕ, ◌≡◌, refl, sym, ap, subst, ◌∙◌, List, [], ◌∷◌, ◌++◌, append_assoc, map,
}
use logger_double_buffer.Base.Bytes.{Bytes}
use logger_double_buffer.AsyncBuffer.{Buffer}
use logger_double_buffer.BufferSet.Rounds.{HeldAll}
use logger_double_buffer.BufferSet.Batch.{none_of}
use logger_double_buffer.AsyncLogger.{Which, other}
use logger_double_buffer.AsyncLogger.Collects.{Blocks}
use logger_double_buffer.AsyncLogger.Sets.{Contents, emptied}

-- The blocks of the listed sets, each with what it holds when its turn comes.
abbrev pub Batches : (Which → List ℕ) → Contents → List Which → List Bytes → Type 0
Batches caps ms [] bs = bs ≡ []
Batches caps ms (x ∷ xs) bs =
    (b1 : List Bytes) × (b2 : List Bytes) × (bs ≡ b1 ++ b2)
    × Blocks (caps x) (ms x) b1
    × Batches caps (emptied x ms) xs b2

abbrev pub emptied_all : List Which → Contents → Contents
emptied_all [] ms = ms
emptied_all (x ∷ xs) ms = emptied_all xs (emptied x ms)

pub emptied_all-append :
    (xs ys : List Which) (ms : Contents)
    → emptied_all (xs ++ ys) ms ≡ emptied_all ys (emptied_all xs ms)
emptied_all-append [] ys ms = refl
emptied_all-append (x ∷ xs) ys ms = emptied_all-append xs ys (emptied x ms)

-- What is left after flushing a list of sets, if all were flushed again.
pub none_of-none : (m : List (List Bytes)) → none_of (none_of m) ≡ none_of m
none_of-none [] = refl
none_of-none (x ∷ m) = ap (◌∷◌ []) (none_of-none m)

pub none_of-emptied : (x y : Which) (ms : Contents) → none_of (emptied x ms y) ≡ none_of (ms y)
none_of-emptied Which.a Which.a ms = none_of-none (ms Which.a)
none_of-emptied Which.a Which.b ms = refl
none_of-emptied Which.b Which.a ms = refl
none_of-emptied Which.b Which.b ms = none_of-none (ms Which.b)

pub none_of-emptied_all :
    (xs : List Which) (y : Which) (ms : Contents) → none_of (emptied_all xs ms y) ≡ none_of (ms y)
none_of-emptied_all [] y ms = refl
none_of-emptied_all (x ∷ xs) y ms = none_of-emptied_all xs y (emptied x ms) ∙ none_of-emptied x y ms

pub emptied-both :
    (x y : Which) (ms : Contents) → emptied (other x) (emptied x ms) y ≡ none_of (ms y)
emptied-both Which.a Which.a ms = refl
emptied-both Which.a Which.b ms = refl
emptied-both Which.b Which.a ms = refl
emptied-both Which.b Which.b ms = refl

pub emptied_all-both :
    (xs : List Which) (x y : Which) (ms : Contents)
    → emptied_all (xs ++ x ∷ other x ∷ []) ms y ≡ none_of (ms y)
emptied_all-both xs x y ms =
    ap (λ (f : Contents). f y) (emptied_all-append xs (x ∷ other x ∷ []) ms)
    ∙ (emptied-both x y (emptied_all xs ms) ∙ none_of-emptied_all xs y ms)

pub Batches-capacities :
    (caps caps' : Which → List ℕ) (ms : Contents) (xs : List Which) (bs : List Bytes)
    → ((x : Which) → caps x ≡ caps' x)
    → Batches caps ms xs bs
    → Batches caps' ms xs bs
Batches-capacities caps caps' ms [] bs same h = h
Batches-capacities caps caps' ms (x ∷ xs) bs same (b1, b2, e, here, rest) = (
  b1,
  b2,
  e,
  subst (λ c. Blocks c (ms x) b1) (same x) here,
  Batches-capacities caps caps' (emptied x ms) xs b2 same rest,
)

pub Batches-append :
    (caps : Which → List ℕ) (ms : Contents) (xs ys : List Which) (bs cs : List Bytes)
    → Batches caps ms xs bs
    → Batches caps (emptied_all xs ms) ys cs
    → Batches caps ms (xs ++ ys) (bs ++ cs)
Batches-append caps ms [] ys bs cs e k = subst (λ zs. Batches caps ms ys (zs ++ cs)) (sym e) k
Batches-append caps ms (x ∷ xs) ys bs cs (b1, b2, e, here, rest) k = (
  b1,
  b2 ++ cs,
  ap (λ zs. zs ++ cs) e ∙ append_assoc b1 b2 cs,
  here,
  Batches-append caps (emptied x ms) xs ys b2 cs rest k,
)

pub Blocks-none :
    (limit : ℕ) (bs : List Buffer) (ms : List (List Bytes))
    → HeldAll limit bs ms
    → Blocks (map (λ (b : Buffer). b.capacity) bs) (none_of ms) []
Blocks-none limit [] [] h = refl
Blocks-none limit [] (m ∷ ms) h = absurd h
Blocks-none limit (b ∷ bs) [] h = absurd h
Blocks-none limit (b ∷ bs) (m ∷ ms) (v, small, rest) =
    ([], [], refl, tt, Blocks-none limit bs ms rest)
