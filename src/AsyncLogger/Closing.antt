-- ===== src/AsyncLogger/Closing.antt =====
-- asynclogger/logger.go, Close, and the flushes that it makes.
use logger_double_buffer.Base.{
  ℕ, ◌≡◌, ◌≢◌, refl, sym, subst, ◌∙◌, Bool, true, false, Option, none, some, List, [], ◌∷◌, ◌++◌,
  ◌>>=◌, if-false,
}
use logger_double_buffer.Base.Bytes.{Bytes}
use logger_double_buffer.Logger.{FileWriter}
use logger_double_buffer.Logger.Flush.{Timing}
use logger_double_buffer.BufferSet.Rounds.{SetHolds}
use logger_double_buffer.BufferSet.Batch.{none_of}
use logger_double_buffer.AsyncLogger.{Logger, Which, set_of, other}
use logger_double_buffer.AsyncLogger.Flush.{
  drain_from, flush_rest, inactive_set, final_flushes, close,
}
use logger_double_buffer.AsyncLogger.Sets.{
  Contents, emptied, AllHold, capacities_of, next_set-other,
}
use logger_double_buffer.AsyncLogger.Batches.{Batches, emptied_all, emptied_all-both}
use logger_double_buffer.AsyncLogger.Drains.{
  Drained, Wrote, Drained-bind, Drained-relabelled, relabelled-AllHold, drain_from-Drained,
  flush_rest-Drained,
}

module _ {W : Type 0} (fw : FileWriter W) where
  module _ (limit : ℕ) (t : Timing) (loads : ℕ → List (ℕ × ℕ)) where
    final_flushes-Drained :
        (l : Logger W) (ms : Contents)
        → AllHold limit l ms
        → l.set_a.id ≢ l.set_b.id
        → Drained fw limit l ms (l.active ∷ other l.active ∷ []) (final_flushes fw l t loads)
    unfolding final_flushes
    final_flushes-Drained l ms v ne =
        let d = flush_rest-Drained fw limit t loads l ms (l.active) v in
        let f = d.framed in
        let distinct : d.after.set_a.id ≢ d.after.set_b.id =
          λ e. ne (sym (f.same_ids Which.a) ∙ (e ∙ f.same_ids Which.b)) in
        let next = next_set-other d.after (l.active) distinct f.same_active in
        let rest =
          flush_rest-Drained fw limit t loads d.after (emptied (l.active) ms) (other (l.active))
            d.holds in
        Drained-bind fw (λ first. flush_rest fw first t loads (inactive_set fw first)) d
          (subst
            (λ x.
              Drained fw limit d.after (emptied (l.active) ms) (other (l.active) ∷ [])
                (flush_rest fw d.after t loads x))
            (sym next) rest)

    -- The drain and then the flushes of Close.
    all_flushes-Drained :
        (l : Logger W) (ms : Contents)
        → AllHold limit l ms
        → l.set_a.id ≢ l.set_b.id
        → Drained fw limit l ms (l.flush_chan ++ l.active ∷ other l.active ∷ []) (
            drain_from fw (record l { closed = true }) t loads l.flush_chan >>= λ drained.
            final_flushes fw drained t loads)
    all_flushes-Drained l ms v ne =
        let d =
          drain_from-Drained fw limit t loads (record l { closed = true }) ms (l.flush_chan)
            (relabelled-AllHold fw limit l ms (l.flush_chan) true v) in
        let f = d.framed in
        let distinct : d.after.set_a.id ≢ d.after.set_b.id =
          λ e. ne (sym (f.same_ids Which.a) ∙ (e ∙ f.same_ids Which.b)) in
        let rest = final_flushes-Drained d.after (emptied_all (l.flush_chan) ms) d.holds distinct in
        Drained-relabelled fw (l.flush_chan) true (
          Drained-bind fw (λ drained. final_flushes fw drained t loads) d
            (subst
              (λ x.
                Drained fw limit d.after (emptied_all (l.flush_chan) ms) (x ∷ other x ∷ [])
                  (final_flushes fw d.after t loads))
              f.same_active rest))

    -- The end of Close.
    abbrev writer_closed : Logger W → Option (Bool × Logger W)
    writer_closed l =
        some ((fw.close l.file_writer).1, record l { file_writer = (fw.close l.file_writer).0 })

    close-eq :
        (l : Logger W) {flushed : Logger W}
        → l.closed ≡ false
        → (drain_from fw (record l { closed = true }) t loads l.flush_chan >>= λ drained.
            final_flushes fw drained t loads)
          ≡ some flushed
        → close fw l t loads
          ≡ some (
            (fw.close flushed.file_writer).1,
            record flushed { file_writer = (fw.close flushed.file_writer).0 },
          )
    unfolding close
    close-eq l {flushed} opened e =
        if-false (l.closed) _ _ opened
        ∙ bound (drain_from fw (record l { closed = true }) t loads l.flush_chan) e
      where
        bound :
            (o : Option (Logger W))
            → (o >>= λ drained. final_flushes fw drained t loads) ≡ some flushed
            → (o >>= λ drained. final_flushes fw drained t loads >>= λ done. writer_closed done)
              ≡ some (
                (fw.close flushed.file_writer).1,
                record flushed { file_writer = (fw.close flushed.file_writer).0 },
              )
        bound none e = absurd (cc)
        bound (some drained) e = rw e refl

    -- On an open logger whose sets hold messages and have distinct ids, Close returns, whatever the file
    -- writer answers. The writer gets the blocks of the sets that wait in the channel, then those of the
    -- active set, then those of the other one, each with the messages that the set holds when its turn
    -- comes, and is closed after that. No set holds a message then.
    pub close_lem :
        (l : Logger W) (ms : Contents)
        → AllHold limit l ms
        → l.set_a.id ≢ l.set_b.id
        → l.closed ≡ false
        → (bs : List Bytes) × (u : W) × (l' : Logger W) × (close fw l t loads
            ≡ some ((fw.close u).1, l'))
          × Batches (λ x. capacities_of x l) ms (l.flush_chan ++ l.active ∷ other l.active ∷ []) bs
          × Wrote fw l.file_writer bs u
          × (l'.file_writer ≡ (fw.close u).0)
          × AllHold limit l' (λ x. none_of (ms x))
    close_lem l ms v ne opened =
        let d = all_flushes-Drained l ms v ne in
        let left : AllHold limit d.after (λ x. none_of (ms x)) = λ x.
          subst (SetHolds limit (set_of x d.after))
            (emptied_all-both (l.flush_chan) (l.active) x ms) (d.holds x) in
        (
          d.blocks,
          d.after.file_writer,
          record (d.after) { file_writer = (fw.close d.after.file_writer).0 },
          close-eq l opened d.returned,
          d.batches,
          d.wrote,
          refl,
          λ x.
              elim x
                as (λ k.
                  SetHolds limit
                    (set_of k (record (d.after) { file_writer = (fw.close d.after.file_writer).0 }))
                    (none_of (ms k))) [ Which.a ↦ left Which.a | Which.b ↦ left Which.b ],
        )
