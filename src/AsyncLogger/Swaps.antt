-- ===== src/AsyncLogger/Swaps.antt =====
-- asynclogger/logger.go, trySwap: the ids, the channel and the messages of the two sets.
use logger_double_buffer.Base.{
  ℕ, ◌+◌, ◌%◌, ◌≤◌, ◌<◌, ◌^◌, ◌≡◌, ◌≢◌, refl, sym, ap, subst, ◌∙◌, false, List, [], ◌∷◌, arith,
  if-true, if-false, Bool-cases, inl, inr,
}
use logger_double_buffer.Base.Bytes.{Bytes}
use logger_double_buffer.BufferSet.{BufferSet}
use logger_double_buffer.BufferSet.Rounds.{SetHolds}
use logger_double_buffer.AsyncLogger.{
  Logger, Statistics, Which, set_of, other, next_set, swap_to, try_swap, try_send,
}
use logger_double_buffer.AsyncLogger.Sets.{Contents, AllHold, next_set-other}

other-other : (x : Which) → other (other x) ≡ x
other-other Which.a = refl
other-other Which.b = refl

-- The counters that a swap leaves alone.
abbrev pub Kept : Statistics → Statistics → Type 0
Kept st st' =
    (st'.total_logs ≡ st.total_logs)
    × (st'.dropped_logs ≡ st.dropped_logs)
    × (st'.bytes_written ≡ st.bytes_written)

module _ {W : Type 0} where
  -- The ids of the two sets differ, and the next one is new.
  pub record IsTagged (l : Logger W) : Type 0 where
    pub distinct : l.set_a.id ≢ l.set_b.id
    pub below : (x : Which) → (set_of x l).id ≤ l.next_id

  -- What a swap to `x` does.
  pub record Swapped (l l' : Logger W) (x : Which) : Type 0 where
    pub tagged : IsTagged l'
    pub active : l'.active ≡ x
    pub chan : l'.flush_chan ≡ try_send (l.active) (l.flush_chan)
    pub next : l'.next_id ≡ l.next_id + 1
    pub free : l'.swapping ≡ l.swapping
    pub shards : (y : Which) → (set_of y l').shards ≡ (set_of y l).shards

  swap_to-Swapped :
      (l : Logger W) (x : Which) → IsTagged l → l.next_id + 1 < 2 ^ 32 → Swapped l (swap_to x l) x
  swap_to-Swapped l Which.a v small =
      let (low_a, low_b) : (l.set_a.id ≤ l.next_id) × (l.set_b.id ≤ l.next_id) =
        (v.below Which.a, v.below Which.b) in
      record {
        tagged = record {
          distinct = λ e. omega arith;
          below = λ y.
              elim y as (λ k. (set_of k (swap_to Which.a l)).id ≤ (swap_to Which.a l).next_id) [
                | Which.a ↦ omega arith
                | Which.b ↦ omega arith
              ];
        };
        active = refl;
        chan = refl;
        next = omega arith;
        free = refl;
        shards = λ y. elim y as (λ k. (set_of k (swap_to Which.a l)).shards ≡ (set_of k l).shards) [
          | Which.a ↦ refl
          | Which.b ↦ refl
        ];
      }
  swap_to-Swapped l Which.b v small =
      let (low_a, low_b) : (l.set_a.id ≤ l.next_id) × (l.set_b.id ≤ l.next_id) =
        (v.below Which.a, v.below Which.b) in
      record {
        tagged = record {
          distinct = λ e. omega arith;
          below = λ y.
              elim y as (λ k. (set_of k (swap_to Which.b l)).id ≤ (swap_to Which.b l).next_id) [
                | Which.a ↦ omega arith
                | Which.b ↦ omega arith
              ];
        };
        active = refl;
        chan = refl;
        next = omega arith;
        free = refl;
        shards = λ y. elim y as (λ k. (set_of k (swap_to Which.b l)).shards ≡ (set_of k l).shards) [
          | Which.a ↦ refl
          | Which.b ↦ refl
        ];
      }

  -- While the ids differ and the counter of ids does not wrap, a swap that nobody else is making makes
  -- the other set the active one, whatever the ids are; the ids differ again, the set that was active
  -- is sent to the flush worker if the channel has room, and no message moves.
  pub try_swap-Swapped :
      (l : Logger W)
      → IsTagged l
      → l.swapping ≡ false
      → l.next_id + 1 < 2 ^ 32
      → Swapped l (try_swap l) (other l.active)
  unfolding try_swap
  try_swap-Swapped l v free small =
      subst (λ l'. Swapped l l' (other l.active))
        (sym (
          if-false (l.swapping) _ _ free
          ∙ ap (λ x. swap_to x l) (next_set-other l (l.active) v.distinct refl)))
        (swap_to-Swapped l (other l.active) v small)

  -- Two swaps that come before the flush worker has received anything put the first set back in
  -- service with the messages that it held, while it still waits to be flushed.
  pub swap_twice :
      (l : Logger W)
      → IsTagged l
      → l.swapping ≡ false
      → l.flush_chan ≡ []
      → l.next_id + 2 < 2 ^ 32
      → ((try_swap (try_swap l)).active ≡ l.active)
        × ((try_swap (try_swap l)).flush_chan ≡ l.active ∷ other l.active ∷ [])
        × ((set_of l.active (try_swap (try_swap l))).shards ≡ (set_of l.active l).shards)
  swap_twice l v free idle small =
      let one = try_swap-Swapped l v free (omega arith) in
      let up = one.next in
      let two = try_swap-Swapped (try_swap l) one.tagged (one.free ∙ free) (omega arith) in
      let first : (try_swap l).flush_chan ≡ l.active ∷ [] =
        one.chan ∙ ap (try_send (l.active)) idle in
      (
        two.active ∙ (ap other one.active ∙ other-other (l.active)),
        two.chan
            ∙ (ap (try_send ((try_swap l).active)) first ∙ ap (λ x. l.active ∷ x ∷ []) one.active),
        two.shards (l.active) ∙ one.shards (l.active),
      )

  swap_to-keeps :
      (limit : ℕ) (l : Logger W) (ms : Contents) (x : Which)
      → AllHold limit l ms
      → AllHold limit (swap_to x l) ms × Kept (l.stats) ((swap_to x l).stats)
  swap_to-keeps limit l ms x v = (held x, kept x)
    where
      renamed :
          (bs : BufferSet) (m : List (List Bytes)) (id : ℕ)
          → SetHolds limit bs m
          → SetHolds limit (record bs { id = id }) m
      renamed bs m id w = record { held = w.held; counted = w.counted; enough = w.enough }

      held : (y : Which) → AllHold limit (swap_to y l) ms
      held Which.a Which.a = renamed (l.set_a) (ms Which.a) ((l.next_id + 1) % 2 ^ 32) (v Which.a)
      held Which.a Which.b = v Which.b
      held Which.b Which.a = v Which.a
      held Which.b Which.b = renamed (l.set_b) (ms Which.b) ((l.next_id + 1) % 2 ^ 32) (v Which.b)

      kept : (y : Which) → Kept (l.stats) ((swap_to y l).stats)
      kept Which.a = (refl, refl, refl)
      kept Which.b = (refl, refl, refl)

  -- Whatever the ids are, a swap moves no message and counts no log.
  pub try_swap-keeps :
      (limit : ℕ) (l : Logger W) (ms : Contents)
      → AllHold limit l ms
      → AllHold limit (try_swap l) ms × Kept (l.stats) ((try_swap l).stats)
  unfolding try_swap
  try_swap-keeps limit l ms v = elim (Bool-cases (l.swapping)) [
    | inl busy ↦
        subst (λ (k : Logger W). AllHold limit k ms × Kept (l.stats) (k.stats))
          (sym (if-true (l.swapping) _ _ busy)) (v, (refl, refl, refl))
    | inr free ↦
        subst (λ (k : Logger W). AllHold limit k ms × Kept (l.stats) (k.stats))
          (sym (if-false (l.swapping) _ _ free)) (swap_to-keeps limit l ms (next_set l) v)
  ]
