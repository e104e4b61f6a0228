-- ===== src/AsyncLogger/Messages.antt =====
-- The messages of the two sets as one list, up to its order.
use mathlib.Core.List.{
  Perm, perm_middle, perm_append_comm, perm-append_left_iff, perm-append_right_iff,
}
use mathlib.Core.List.Perm
use logger_double_buffer.Base.{
  ℕ, zero, suc, ◌≡◌, inl, inr, refl, List, [], ◌∷◌, ◌++◌, append-nil, append_assoc,
}
use logger_double_buffer.Base.Bytes.{Bytes}
use logger_double_buffer.BufferSet.Rounds.{Appended}
use logger_double_buffer.BufferSet.Batch.{none_of}
use logger_double_buffer.AsyncLogger.{Which}
use logger_double_buffer.AsyncLogger.Build.{nothing}
use logger_double_buffer.AsyncLogger.Collects.{Blocks}
use logger_double_buffer.AsyncLogger.Sets.{Contents, emptied}
use logger_double_buffer.AsyncLogger.Outcomes.{AddedTo, Unchanged}

-- The messages of a set, and of both.
abbrev pub flat : List (List Bytes) → List Bytes
flat [] = []
flat (m ∷ ms) = m ++ flat ms

abbrev pub all_of : Contents → List Bytes
all_of ms = flat (ms Which.a) ++ flat (ms Which.b)

-- Blocks that carry the messages, one flush after another.
pub data Carried : List Bytes → List Bytes → Type 0 where
  none_yet : Carried [] []
  more :
      {gone bs : List Bytes} (caps : List ℕ) (ms : List (List Bytes)) (xs : List Bytes)
      → Carried gone bs
      → Blocks caps ms xs
      → Carried (gone ++ flat ms) (bs ++ xs)

pub flat-none : (ms : List (List Bytes)) → flat (none_of ms) ≡ []
flat-none [] = refl
flat-none (m ∷ ms) = flat-none ms

pub flat-nothing : (n : ℕ) → flat (nothing n) ≡ []
flat-nothing zero = refl
flat-nothing (suc n) = flat-nothing n

pub Appended-perm :
    (p : Bytes) (ms ms' : List (List Bytes)) → Appended p ms ms' → Perm (p ∷ flat ms) (flat ms')
Appended-perm p [] ms' h = absurd h
Appended-perm p (m ∷ ms) [] h = absurd h
Appended-perm p (m ∷ ms) (m' ∷ ms') (inl (e, same)) =
    rw (e, same, append_assoc m (p ∷ []) (flat ms)) (Perm.symm (perm_middle m (flat ms)))
Appended-perm p (m ∷ ms) (m' ∷ ms') (inr (e, h)) = rw e (
    Perm.trans (Perm.symm (perm_middle m (flat ms)))
      ((perm-append_left_iff m).1 (Appended-perm p ms ms' h)))

pub AddedTo-perm :
    (p : Bytes) (ms ms' : Contents) → AddedTo p ms ms' → Perm (p ∷ all_of ms) (all_of ms')
AddedTo-perm p ms ms' (Which.a, h, e) =
    rw e
      ((perm-append_right_iff (flat (ms Which.b))).1 (Appended-perm p (ms Which.a) (ms' Which.a) h))
AddedTo-perm p ms ms' (Which.b, h, e) = rw e (
    Perm.trans (Perm.symm (perm_middle (flat (ms Which.a)) (flat (ms Which.b))))
      ((perm-append_left_iff (flat (ms Which.a))).1 (Appended-perm p (ms Which.b) (ms' Which.b) h)))

pub all_of-Unchanged : (ms ms' : Contents) → Unchanged ms ms' → all_of ms' ≡ all_of ms
all_of-Unchanged ms ms' same = rw (same Which.a, same Which.b) refl

-- A flushed set has its messages among those that are gone.
pub emptied-perm :
    (gone : List Bytes) (x : Which) (ms : Contents)
    → Perm (gone ++ all_of ms) ((gone ++ flat (ms x)) ++ all_of (emptied x ms))
emptied-perm gone Which.a ms =
    rw (flat-none (ms Which.a), append_assoc gone (flat (ms Which.a)) (flat (ms Which.b)))
      (Perm.refl _)
emptied-perm gone Which.b ms =
    rw
      (
        flat-none (ms Which.b),
        append-nil (flat (ms Which.a)),
        append_assoc gone (flat (ms Which.b)) (flat (ms Which.a)),
      )
      ((perm-append_left_iff gone).1 (perm_append_comm (flat (ms Which.a)) (flat (ms Which.b))))
