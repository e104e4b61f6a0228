-- ===== src/AsyncLogger/Drains.antt =====
-- Flushing a list of sets, one after another: the drain of the channel, and Close's flush of one set.
use logger_double_buffer.Base.{
  ℕ, ◌≡◌, inl, inr, refl, sym, ap, subst, ◌∙◌, Bool, Option, some, List, [], ◌∷◌, ◌++◌, append-nil,
  append_assoc, map, ◌>>=◌, if-false, Bool-cases,
}
use logger_double_buffer.Base.Bytes.{Bytes}
use logger_double_buffer.Logger.{FileWriter}
use logger_double_buffer.Logger.Flush.{Timing}
use logger_double_buffer.Logger.Batch.{written}
use logger_double_buffer.AsyncBuffer.{Buffer}
use logger_double_buffer.BufferSet
use logger_double_buffer.BufferSet.{BufferSet}
use logger_double_buffer.BufferSet.Rounds.{SetHolds}
use logger_double_buffer.BufferSet.Batch.{none_of, has_data-none}
use logger_double_buffer.AsyncLogger.{Logger, Which, set_of}
use logger_double_buffer.AsyncLogger.Flush.{drain_from, flush_rest}
use logger_double_buffer.AsyncLogger.Collects.{Blocks}
use logger_double_buffer.AsyncLogger.Sets.{
  Contents, emptied, AllHold, capacities_of, Framed, Framed-trans, Framed-refl, Flushed,
  flush_set-Flushed,
}
use logger_double_buffer.AsyncLogger.Batches.{
  Batches, emptied_all, emptied_all-append, Batches-capacities, Batches-append, Blocks-none,
}

-- The file writer after it was given the blocks, in some number of calls.
pub data Wrote {W : Type 0} (fw : FileWriter W) (w : W) : List Bytes → W → Type 0 where
  start : Wrote fw w [] w
  batch :
      {u : W} {bs : List Bytes}
      → Wrote fw w bs u
      → (cs : List Bytes) → Wrote fw w (bs ++ cs) (written fw u cs)

module _ {W : Type 0} (fw : FileWriter W) where
  Wrote-trans :
      {w u v : W} {bs cs : List Bytes} → Wrote fw w bs u → Wrote fw u cs v → Wrote fw w (bs ++ cs) v
  Wrote-trans {w} {u} {v} {bs} h start = subst (λ zs. Wrote fw w zs u) (sym (append-nil bs)) h
  Wrote-trans {w} {bs = bs} h (batch {u = x} {bs = ds} k es) =
      subst (λ zs. Wrote fw w zs (written fw x es)) (append_assoc bs ds es)
        (batch (Wrote-trans h k) es)

  -- What flushing the listed sets, in their order, does.
  pub record Drained (limit : ℕ) (l : Logger W) (ms : Contents) (xs : List Which)
      (ran : Option (Logger W)) : Type 0 where
    pub blocks : List Bytes
    pub after : Logger W
    pub returned : ran ≡ some after
    pub batches : Batches (λ x. capacities_of x l) ms xs blocks
    pub wrote : Wrote fw l.file_writer blocks after.file_writer
    pub holds : AllHold limit after (emptied_all xs ms)
    pub framed : Framed l after

  flush-Drained :
      {limit : ℕ} {l : Logger W} {ms : Contents} {x : Which} {ran : Option (Logger W)}
      → Flushed fw limit l ms x ran
      → Drained limit l ms (x ∷ []) ran
  flush-Drained {l = l} f = record {
    blocks = f.blocks;
    after = f.after;
    returned = f.returned;
    batches = (f.blocks, [], sym (append-nil f.blocks), f.carried, refl);
    wrote = subst (λ u. Wrote fw l.file_writer f.blocks u) (sym f.file) (batch start f.blocks);
    holds = f.holds;
    framed = f.framed;
  }

  -- One list of sets after another.
  pub Drained-bind :
      {limit : ℕ} {l : Logger W} {ms : Contents} {xs ys : List Which} {ran : Option (Logger W)}
      → (next : Logger W → Option (Logger W)) → (d : Drained limit l ms xs ran)
      → Drained limit (d.after) (emptied_all xs ms) ys (next (d.after))
      → Drained limit l ms (xs ++ ys) (ran >>= next)
  Drained-bind {limit} {l} {ms} {xs} {ys} {ran} next d k = record {
    blocks = d.blocks ++ k.blocks;
    after = k.after;
    returned = ap (λ o. o >>= next) d.returned ∙ k.returned;
    batches =
        Batches-append (λ x. capacities_of x l) ms xs ys d.blocks k.blocks d.batches
          (Batches-capacities (λ x. capacities_of x (d.after)) (λ x. capacities_of x l)
            (emptied_all xs ms) ys k.blocks d.framed.same_capacities k.batches);
    wrote = Wrote-trans d.wrote k.wrote;
    holds = subst (AllHold limit k.after) (sym (emptied_all-append xs ys ms)) k.holds;
    framed = Framed-trans d.framed k.framed;
  }

  -- The channel and the closed flag do not matter to the sets.
  abbrev relabelled : Logger W → List Which → Bool → Logger W
  relabelled l queue shut = record l { flush_chan = queue; closed = shut }

  set_of-relabelled :
      (l : Logger W) (queue : List Which) (shut : Bool) (x : Which)
      → set_of x (relabelled l queue shut) ≡ set_of x l
  set_of-relabelled l queue shut Which.a = refl
  set_of-relabelled l queue shut Which.b = refl

  pub relabelled-AllHold :
      (limit : ℕ) (l : Logger W) (ms : Contents) (queue : List Which) (shut : Bool)
      → AllHold limit l ms
      → AllHold limit (relabelled l queue shut) ms
  relabelled-AllHold limit l ms queue shut v x =
      subst (λ bs. SetHolds limit bs (ms x)) (sym (set_of-relabelled l queue shut x)) (v x)

  pub Drained-relabelled :
      {limit : ℕ} {l : Logger W} {ms : Contents} {xs : List Which} {ran : Option (Logger W)}
      (queue : List Which) (shut : Bool)
      → Drained limit (relabelled l queue shut) ms xs ran
      → Drained limit l ms xs ran
  Drained-relabelled {l = l} {ms} {xs} queue shut d =
      let caps : (x : Which) → capacities_of x (relabelled l queue shut) ≡ capacities_of x l = λ x.
        ap (λ bs. map (λ (b : Buffer). b.capacity) (bs.shards))
          (set_of-relabelled l queue shut x) in
      let ids : (x : Which) → (set_of x (relabelled l queue shut)).id ≡ (set_of x l).id =
        λ x. ap (λ bs. bs.id) (set_of-relabelled l queue shut x) in
      record {
        blocks = d.blocks;
        after = d.after;
        returned = d.returned;
        batches =
            Batches-capacities (λ x. capacities_of x (relabelled l queue shut))
              (λ x. capacities_of x l) ms xs d.blocks caps d.batches;
        wrote = d.wrote;
        holds = d.holds;
        framed = record {
          same_ids = λ x. d.framed.same_ids x ∙ ids x;
          same_capacities = λ x. d.framed.same_capacities x ∙ caps x;
          same_active = d.framed.same_active;
        };
      }

  emptied-same :
      (limit : ℕ) (l : Logger W) (ms : Contents) (x : Which)
      → AllHold limit l ms
      → ms x ≡ none_of (ms x)
      → AllHold limit l (emptied x ms)
  emptied-same limit l ms Which.a v e Which.a = subst (SetHolds limit (l.set_a)) e (v Which.a)
  emptied-same limit l ms Which.a v e Which.b = v Which.b
  emptied-same limit l ms Which.b v e Which.a = v Which.a
  emptied-same limit l ms Which.b v e Which.b = subst (SetHolds limit (l.set_b)) e (v Which.b)

  module _ (limit : ℕ) (t : Timing) (loads : ℕ → List (ℕ × ℕ)) where
    -- drainFlushChannel flushes the sets in the channel.
    pub drain_from-Drained :
        (l : Logger W) (ms : Contents) (queue : List Which)
        → AllHold limit l ms
        → Drained limit l ms queue (drain_from fw l t loads queue)
    unfolding drain_from
    drain_from-Drained l ms [] v = record {
      blocks = [];
      after = relabelled l [] (l.closed);
      returned = refl;
      batches = refl;
      wrote = start;
      holds = relabelled-AllHold limit l ms [] (l.closed) v;
      framed = record {
        same_ids = λ x. ap (λ bs. bs.id) (set_of-relabelled l [] (l.closed) x);
        same_capacities = λ x.
            ap (λ bs. map (λ (b : Buffer). b.capacity) (bs.shards))
              (set_of-relabelled l [] (l.closed) x);
        same_active = refl;
      };
    }
    drain_from-Drained l ms (x ∷ queue) v =
        let d = flush-Drained (
          flush_set-Flushed fw limit (relabelled l queue (l.closed)) ms t loads x
            (relabelled-AllHold limit l ms queue (l.closed) v)) in
        Drained-relabelled queue (l.closed) (
          Drained-bind (λ l'. drain_from fw l' t loads queue) d
            (drain_from-Drained d.after (emptied x ms) queue d.holds))

    -- Close's flush of one set, which does nothing when it has no data.
    pub flush_rest-Drained :
        (l : Logger W) (ms : Contents) (x : Which)
        → AllHold limit l ms
        → Drained limit l ms (x ∷ []) (flush_rest fw l t loads x)
    unfolding flush_rest
    flush_rest-Drained l ms x v = elim (Bool-cases (BufferSet.has_data (set_of x l))) [
      | inl some_data ↦ rw some_data (flush-Drained (flush_set-Flushed fw limit l ms t loads x v))
      | inr none_left ↦
          let empty : ms x ≡ none_of (ms x) =
            has_data-none limit (set_of x l) (ms x) (v x) none_left in
          let w = v x in
          record {
            blocks = [];
            after = l;
            returned = if-false (BufferSet.has_data (set_of x l)) _ _ none_left;
            batches = (
              [],
              [],
              refl,
              subst (λ m. Blocks (capacities_of x l) m []) (sym empty)
                  (Blocks-none limit ((set_of x l).shards) (ms x) w.held),
              refl,
            );
            wrote = start;
            holds = emptied-same limit l ms x v empty;
            framed = Framed-refl l;
          }
    ]
