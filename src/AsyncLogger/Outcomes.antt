-- ===== src/AsyncLogger/Outcomes.antt =====
-- What a call of LogBytes can do to the counters and the messages.
use logger_double_buffer.Base.{
  ℕ, ◌+◌, ◌≡◌, ◌⊎◌, inl, inr, refl, sym, ap, subst, ◌∙◌, true, false, Option, some, List, arith,
  length, ltb, ◌==◌,
}
use logger_double_buffer.Base.Bytes.{Bytes}
use logger_double_buffer.BufferSet.Rounds.{TookIn, Appended}
use logger_double_buffer.AsyncLogger.{Logger, Statistics, Which, other, add_int64}
use logger_double_buffer.AsyncLogger.Sets.{Contents, put, AllHold}
use logger_double_buffer.AsyncLogger.Swaps.{Kept}

-- `p` is added to one buffer of one of the sets; the other set stays.
abbrev pub AddedTo : Bytes → Contents → Contents → Type 0
AddedTo p ms ms' = (x : Which) × Appended p (ms x) (ms' x) × (ms' (other x) ≡ ms (other x))

abbrev pub Unchanged : Contents → Contents → Type 0
Unchanged ms ms' = (x : Which) → ms' x ≡ ms x

-- A write of `p` took nothing, or added it.
abbrev pub Taken : Bytes → ℕ → Contents → Contents → Type 0
Taken p n ms ms' = ((n ≡ 0) × Unchanged ms ms') ⊎ ((n ≡ 4 + length p) × AddedTo p ms ms')

pub put-same : (x : Which) (m : List (List Bytes)) (ms : Contents) → put x m ms x ≡ m
put-same Which.a m ms = refl
put-same Which.b m ms = refl

pub put-other :
    (x : Which) (m : List (List Bytes)) (ms : Contents) → put x m ms (other x) ≡ ms (other x)
put-other Which.a m ms = refl
put-other Which.b m ms = refl

pub put-Unchanged :
    (x : Which) (m : List (List Bytes)) (ms : Contents) → m ≡ ms x → Unchanged ms (put x m ms)
put-Unchanged Which.a m ms e Which.a = e
put-Unchanged Which.a m ms e Which.b = refl
put-Unchanged Which.b m ms e Which.a = refl
put-Unchanged Which.b m ms e Which.b = e

pub put-Taken :
    (p : Bytes) (n : ℕ) (x : Which) (m : List (List Bytes)) (ms : Contents)
    → TookIn p n (ms x) m
    → Taken p n ms (put x m ms)
put-Taken p n x m ms (inl (z, e)) = inl (z, put-Unchanged x m ms e)
put-Taken p n x m ms (inr (z, e)) =
    inr (z, (x, subst (Appended p (ms x)) (sym (put-same x m ms)) e, put-other x m ms))

pub Kept-of : {st st' : Statistics} → st' ≡ st → Kept st st'
Kept-of e = (ap (λ s. s.total_logs) e, ap (λ s. s.dropped_logs) e, ap (λ s. s.bytes_written) e)

pub Kept-trans : (st st' st'' : Statistics) → Kept st st' → Kept st' st'' → Kept st st''
Kept-trans st st' st'' (a, b, c) (d, e, f) = (d ∙ a, e ∙ b, f ∙ c)

pub took_some : (p : Bytes) {n : ℕ} → n ≡ 4 + length p → (ltb 0 n ≡ true) × ((n == 0) ≡ false)
took_some p e = (ground arith, ground arith)

pub took_none : {n : ℕ} → n ≡ 0 → (ltb 0 n ≡ false) × ((n == 0) ≡ true)
took_none e = (ground arith, ground arith)

-- What an outcome of LogBytes did, from the statistics `st` and the messages `ms`.
pub record Settled {W : Type 0} (limit : ℕ) (p : Bytes) (st : Statistics) (ms : Contents)
    (ran : Option (Logger W)) : Type 0 where
  pub after : Logger W
  pub messages : Contents
  pub returned : ran ≡ some after
  pub holds : AllHold limit after messages
  pub settled :
      ((after.stats.dropped_logs ≡ add_int64 st.dropped_logs 1) × Unchanged ms messages)
      ⊎ ((after.stats.dropped_logs ≡ st.dropped_logs) × AddedTo p ms messages)
  pub attempts : after.stats.total_logs ≡ st.total_logs
  pub same_bytes : after.stats.bytes_written ≡ st.bytes_written
