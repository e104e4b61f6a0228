-- ===== src/AsyncLogger/Sets.antt =====
-- The two sets of a logger as sequences of messages: what a flush, the drain and Close do to them.
use logger_double_buffer.Base.{
  ℕ, ◌≡◌, ◌≢◌, refl, sym, ap, ◌∙◌, false, Option, some, List, [], ◌∷◌, arith, ◌==◌, ==_iff, if-true,
  if-false,
}
use logger_double_buffer.Base.Bytes.{Bytes}
use logger_double_buffer.Logger.{FileWriter}
use logger_double_buffer.Logger.Flush.{Timing}
use logger_double_buffer.Logger.Batch.{written}
use logger_double_buffer.AsyncBuffer.{Buffer}
use logger_double_buffer.BufferSet
use logger_double_buffer.BufferSet.{BufferSet}
use logger_double_buffer.BufferSet.Rounds.{SetHolds}
use logger_double_buffer.BufferSet.Batch.{capacities, none_of, reset-SetHolds}
use logger_double_buffer.AsyncLogger.{
  Logger, Which, Statistics, set_of, store_set, with_stats, other, next_set,
}
use logger_double_buffer.AsyncLogger.Flush.{
  collect_all, write_batch, count_write, count_flush, flush_set,
}
use logger_double_buffer.AsyncLogger.Collects.{Blocks, collect_all-CollectedAll}

-- The messages of each set, by buffer.
abbrev pub Contents : Type 0
Contents = Which → List (List Bytes)

abbrev pub put : Which → List (List Bytes) → Contents → Contents
put Which.a v ms Which.a = v
put Which.a v ms Which.b = ms Which.b
put Which.b v ms Which.a = ms Which.a
put Which.b v ms Which.b = v

-- A set without its messages.
abbrev pub emptied : Which → Contents → Contents
emptied x ms = put x (none_of (ms x)) ms

module _ {W : Type 0} where
  abbrev pub AllHold : ℕ → Logger W → Contents → Type 0
  AllHold limit l ms = (x : Which) → SetHolds limit (set_of x l) (ms x)

  abbrev pub capacities_of : Which → Logger W → List ℕ
  capacities_of x l = capacities (set_of x l)

  -- What a flush leaves alone.
  pub record Framed (l l' : Logger W) : Type 0 where
    pub same_ids : (x : Which) → (set_of x l').id ≡ (set_of x l).id
    pub same_capacities : (x : Which) → capacities_of x l' ≡ capacities_of x l
    pub same_active : l'.active ≡ l.active

  pub Framed-trans : {l l' l'' : Logger W} → Framed l l' → Framed l' l'' → Framed l l''
  Framed-trans f g = record {
    same_ids = λ x. g.same_ids x ∙ f.same_ids x;
    same_capacities = λ x. g.same_capacities x ∙ f.same_capacities x;
    same_active = g.same_active ∙ f.same_active;
  }

  pub Framed-refl : (l : Logger W) → Framed l l
  Framed-refl l = record { same_ids = λ x. refl; same_capacities = λ x. refl; same_active = refl }

differ : (m n : ℕ) → m ≢ n → (m == n) ≡ false
differ m n ne = ground arith

-- With distinct ids, comparing them finds the set that is not active.
module _ {W : Type 0} where
  pub next_set-other :
      (l : Logger W) (x : Which) → l.set_a.id ≢ l.set_b.id → l.active ≡ x → next_set l ≡ other x
  next_set-other l Which.a ne e =
      let same : (set_of l.active l).id ≡ l.set_a.id = ap (λ x. (set_of x l).id) e in
      if-true ((set_of l.active l).id == l.set_a.id) _ _
        ((==_iff ((set_of l.active l).id) (l.set_a.id)).1 same)
  next_set-other l Which.b ne e =
      let same : (set_of l.active l).id ≡ l.set_b.id = ap (λ x. (set_of x l).id) e in
      if-false ((set_of l.active l).id == l.set_a.id) _ _
        (differ ((set_of l.active l).id) (l.set_a.id) (λ k. ne (sym k ∙ same)))

module _ {W : Type 0} (fw : FileWriter W) where
  write_batch-eq :
      (l : Logger W) (t : Timing) (xs : List Bytes)
      → (st : Statistics) × (write_batch fw l t xs
          ≡ record l { file_writer = written fw l.file_writer xs; stats = st })
  unfolding write_batch
  write_batch-eq l t [] = (l.stats, refl)
  write_batch-eq l t (x ∷ xs) =
      let r = fw.write_vectored l.file_writer (x ∷ xs) in
      (count_write l.stats r.1 t.writing (fw.get_last_pwritev_duration r.0) r.2, refl)

  -- The logger after a flush.
  abbrev flushed : Logger W → Timing → Which → List Bytes → List Buffer → Statistics → Logger W
  flushed l t x xs after st =
      with_stats (λ s. count_flush s t)
        (store_set x (BufferSet.reset (record (set_of x l) { shards = after }))
          (record l { file_writer = written fw l.file_writer xs; stats = st }))

  flush_set-eq :
      (l : Logger W) (t : Timing) (loads : ℕ → List (ℕ × ℕ)) (x : Which) {xs : List Bytes}
      {after : List Buffer}
      → collect_all loads 0 (set_of x l).shards ≡ some (xs, after)
      → (st : Statistics) × (flush_set fw l t loads x ≡ some (flushed l t x xs after st))
  unfolding flush_set
  flush_set-eq l t loads Which.a {xs} {after} e =
      let (st, wrote) = write_batch-eq l t xs in (st, rw (e, wrote) refl)
  flush_set-eq l t loads Which.b {xs} {after} e =
      let (st, wrote) = write_batch-eq l t xs in (st, rw (e, wrote) refl)

  -- What a flush of the set `x` does.
  pub record Flushed (limit : ℕ) (l : Logger W) (ms : Contents) (x : Which)
      (ran : Option (Logger W)) : Type 0 where
    pub blocks : List Bytes
    pub after : Logger W
    pub returned : ran ≡ some after
    pub carried : Blocks (capacities_of x l) (ms x) blocks
    pub file : after.file_writer ≡ written fw l.file_writer blocks
    pub holds : AllHold limit after (emptied x ms)
    pub framed : Framed l after

  flushed-Framed :
      (l : Logger W) (t : Timing) (x : Which) (xs : List Bytes) (after : List Buffer)
      (st : Statistics)
      → capacities (BufferSet.reset (record (set_of x l) { shards = after })) ≡ capacities_of x l
      → Framed l (flushed l t x xs after st)
  unfolding BufferSet.reset
  flushed-Framed l t Which.a xs after st e = record {
    same_ids = λ y.
        elim y as (λ k. (set_of k (flushed l t Which.a xs after st)).id ≡ (set_of k l).id) [
          | Which.a ↦ refl
          | Which.b ↦ refl
        ];
    same_capacities = λ y.
        elim y as (λ k. capacities_of k (flushed l t Which.a xs after st) ≡ capacities_of k l) [
          | Which.a ↦ e
          | Which.b ↦ refl
        ];
    same_active = refl;
  }
  flushed-Framed l t Which.b xs after st e = record {
    same_ids = λ y.
        elim y as (λ k. (set_of k (flushed l t Which.b xs after st)).id ≡ (set_of k l).id) [
          | Which.a ↦ refl
          | Which.b ↦ refl
        ];
    same_capacities = λ y.
        elim y as (λ k. capacities_of k (flushed l t Which.b xs after st) ≡ capacities_of k l) [
          | Which.a ↦ refl
          | Which.b ↦ e
        ];
    same_active = refl;
  }

  flushed-AllHold :
      (limit : ℕ) (l : Logger W) (ms : Contents) (t : Timing) (x : Which) (xs : List Bytes)
      (after : List Buffer) (st : Statistics)
      → AllHold limit l ms
      → SetHolds limit (BufferSet.reset (record (set_of x l) { shards = after })) (none_of (ms x))
      → AllHold limit (flushed l t x xs after st) (emptied x ms)
  flushed-AllHold limit l ms t Which.a xs after st v w Which.a = w
  flushed-AllHold limit l ms t Which.a xs after st v w Which.b = v Which.b
  flushed-AllHold limit l ms t Which.b xs after st v w Which.a = v Which.a
  flushed-AllHold limit l ms t Which.b xs after st v w Which.b = w

  -- A flush of a set returns, whatever the file writer answers: the writer gets, in one call, a block
  -- for every buffer of the set that holds a message, with the buffer's messages in their order. After
  -- it the set holds nothing, and the other set what it held.
  pub flush_set-Flushed :
      (limit : ℕ) (l : Logger W) (ms : Contents) (t : Timing) (loads : ℕ → List (ℕ × ℕ)) (x : Which)
      → AllHold limit l ms
      → Flushed limit l ms x (flush_set fw l t loads x)
  flush_set-Flushed limit l ms t loads x v =
      let w = v x in
      let c = collect_all-CollectedAll limit ((set_of x l).shards) (ms x) loads 0 w.held in
      let (st, e) = flush_set-eq l t loads x c.ran in
      let (reset_holds, caps) =
        reset-SetHolds limit (record (set_of x l) { shards = c.after }) (ms x)
          (record { held = c.held; counted = c.same_length ∙ w.counted; enough = w.enough }) in
      record {
        blocks = c.blocks;
        after = flushed l t x c.blocks c.after st;
        returned = e;
        carried = c.carried;
        file = file_of l t x c.blocks c.after st;
        holds = flushed-AllHold limit l ms t x c.blocks c.after st v reset_holds;
        framed = flushed-Framed l t x c.blocks c.after st (caps ∙ c.same);
      }
    where
      file_of :
          (l : Logger W) (t : Timing) (x : Which) (xs : List Bytes) (after : List Buffer)
          (st : Statistics)
          → (flushed l t x xs after st).file_writer ≡ written fw l.file_writer xs
      file_of l t Which.a xs after st = refl
      file_of l t Which.b xs after st = refl
