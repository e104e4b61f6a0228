-- ===== src/AsyncLogger/History.antt =====
-- The life of a logger of asynclogger/logger.go before Close: calls of LogBytes, ticks and
-- flushes in any order.
use mathlib.Core.List.{Perm, perm_middle, perm-append_left_iff, perm-cons}
use mathlib.Core.List.Perm
use logger_double_buffer.Base.{
  ℕ, ◌≤◌, ◌≡◌, ◌≢◌, ◌⊎◌, inl, inr, refl, sym, subst, Bool, false, Option, some, List, [], ◌∷◌, ◌++◌,
  arith, length, Bool-cases, if-true, if-false,
}
use logger_double_buffer.Base.Bytes.{Bytes}
use logger_double_buffer.Logger.{FileWriter}
use logger_double_buffer.Logger.Flush.{Timing}
use logger_double_buffer.BufferSet
use logger_double_buffer.BufferSet.{BufferSet}
use logger_double_buffer.AsyncLogger.{Logger, Which, set_of, add_int64, log_bytes}
use logger_double_buffer.AsyncLogger.Flush.{receive, tick, flush_set}
use logger_double_buffer.AsyncLogger.Build.{IsFresh, nothing}
use logger_double_buffer.AsyncLogger.Drains.{Wrote, relabelled-AllHold}
use logger_double_buffer.AsyncLogger.Sets.{
  Contents, AllHold, emptied, capacities_of, flush_set-Flushed,
}
use logger_double_buffer.AsyncLogger.Swaps.{try_swap-keeps}
use logger_double_buffer.AsyncLogger.Accounting.{log_bytes-Settled}
use logger_double_buffer.AsyncLogger.Untouched.{file-try_swap, log_bytes-writer}
use logger_double_buffer.AsyncLogger.Messages.{
  flat, all_of, Carried, none_yet, more, flat-nothing, AddedTo-perm, all_of-Unchanged, emptied-perm,
}

-- A life of a logger, with the payloads of at most `limit` bytes that were accepted, the last one first:
-- calls of LogBytes, told apart by the counter of dropped logs, ticks, and sets received by the flush
-- worker.
pub data History {W : Type 0} (fw : FileWriter W) (limit : ℕ) (l0 : Logger W)
    : Logger W → List Bytes → Type 0 where
  start : History fw limit l0 l0 []
  accepted :
      {l l' : Logger W} {acc : List Bytes} (p : Bytes) (acquired : Bool)
      → History fw limit l0 l acc
      → length p ≤ limit
      → p ≢ []
      → l.closed ≡ false
      → log_bytes l acquired p ≡ some l'
      → l'.stats.dropped_logs ≡ l.stats.dropped_logs
      → History fw limit l0 l' (p ∷ acc)
  dropped :
      {l l' : Logger W} {acc : List Bytes} (p : Bytes) (acquired : Bool)
      → History fw limit l0 l acc
      → length p ≤ limit
      → p ≢ []
      → l.closed ≡ false
      → log_bytes l acquired p ≡ some l'
      → l'.stats.dropped_logs ≡ add_int64 l.stats.dropped_logs 1
      → History fw limit l0 l' acc
  ticked :
      {l : Logger W} {acc : List Bytes}
      → History fw limit l0 l acc
      → History fw limit l0 (tick l) acc
  received :
      {l l' : Logger W} {acc : List Bytes} (t : Timing) (loads : ℕ → List (ℕ × ℕ))
      → History fw limit l0 l acc
      → receive fw l t loads ≡ some l'
      → History fw limit l0 l' acc

-- The accepted payloads are those in the blocks that the writer was given and those in the buffers.
pub record Conserved {W : Type 0} (fw : FileWriter W) (limit : ℕ) (w : W) (l : Logger W)
    (acc : List Bytes) : Type 0 where
  pub messages : Contents
  pub gone : List Bytes
  pub blocks : List Bytes
  pub holds : AllHold limit l messages
  pub carried : Carried gone blocks
  pub wrote : Wrote fw w blocks l.file_writer
  pub same : Perm acc (gone ++ all_of messages)

module _ {W : Type 0} (fw : FileWriter W) (limit : ℕ) (w : W) where
  -- A step that moves no message to the writer.
  kept :
      {l l' : Logger W} {acc acc' : List Bytes} (c : Conserved fw limit w l acc) (ms : Contents)
      → AllHold limit l' ms
      → l'.file_writer ≡ l.file_writer
      → Perm acc' (c.gone ++ all_of ms)
      → Conserved fw limit w l' acc'
  kept c ms v e perm = record {
    messages = ms;
    gone = c.gone;
    blocks = c.blocks;
    holds = v;
    carried = c.carried;
    wrote = subst (Wrote fw w c.blocks) (sym e) c.wrote;
    same = perm;
  }

  fresh-Conserved : (n : ℕ) (l : Logger W) → IsFresh limit n w l → Conserved fw limit w l []
  fresh-Conserved n l v = record {
    messages = λ x. nothing n;
    gone = [];
    blocks = [];
    holds = v.holds;
    carried = none_yet;
    wrote = subst (Wrote fw w []) (sym v.writer) Wrote.start;
    same = rw (flat-nothing n) (Perm.refl []);
  }

  not_both : (m n : ℕ) → m ≡ n → m ≡ add_int64 n 1 → ⊥
  not_both m n e f = omega arith

  log-Conserved :
      {l l' : Logger W} {acc : List Bytes} (p : Bytes) (acquired : Bool)
      → Conserved fw limit w l acc
      → length p ≤ limit
      → p ≢ []
      → l.closed ≡ false
      → log_bytes l acquired p ≡ some l'
      → ((l'.stats.dropped_logs ≡ l.stats.dropped_logs) × Conserved fw limit w l' (p ∷ acc))
        ⊎ ((l'.stats.dropped_logs ≡ add_int64 l.stats.dropped_logs 1) × Conserved fw limit w l' acc)
  log-Conserved {l} {l'} {acc} p acquired c short ne opened ran =
      let s = log_bytes-Settled limit p short ne l c.messages acquired c.holds opened in
      let same : s.after ≡ l' = cc in
      let file = log_bytes-writer l.file_writer l acquired p refl ran in
      let held = subst (λ k. AllHold limit k s.messages) same s.holds in
      elim (s.settled) [
        | inl (e, unchanged) ↦ inr (
          subst (λ (k : Logger W). k.stats.dropped_logs ≡ add_int64 l.stats.dropped_logs 1) same e,
          kept c s.messages held file (
              subst (λ xs. Perm acc (c.gone ++ xs))
                (sym (all_of-Unchanged c.messages s.messages unchanged)) c.same),
        )
        | inr (e, added) ↦ inl (
          subst (λ (k : Logger W). k.stats.dropped_logs ≡ l.stats.dropped_logs) same e,
          kept c s.messages held file (
              Perm.trans ((perm-cons p).1 c.same) (
                Perm.trans (Perm.symm (perm_middle c.gone (all_of c.messages)))
                  ((perm-append_left_iff c.gone).1 (AddedTo-perm p c.messages s.messages added)))),
        )
      ]

  tick-Conserved :
      (l : Logger W) (acc : List Bytes)
      → Conserved fw limit w l acc
      → Conserved fw limit w (tick l) acc
  unfolding tick
  tick-Conserved l acc c = elim (Bool-cases (BufferSet.has_data (set_of l.active l))) [
    | inl full ↦
        subst (λ k. Conserved fw limit w k acc)
          (sym (if-true (BufferSet.has_data (set_of l.active l)) _ _ full))
          (kept c c.messages ((try_swap-keeps limit l c.messages c.holds).0)
            (file-try_swap l.file_writer l refl) c.same)
    | inr empty ↦
        subst (λ k. Conserved fw limit w k acc)
          (sym (if-false (BufferSet.has_data (set_of l.active l)) _ _ empty)) c
  ]

  receive-Conserved :
      (l : Logger W) {l' : Logger W} (acc : List Bytes) (t : Timing) (loads : ℕ → List (ℕ × ℕ))
      → Conserved fw limit w l acc
      → receive fw l t loads ≡ some l'
      → Conserved fw limit w l' acc
  unfolding receive
  receive-Conserved l {l'} acc t loads c ran = from_queue (l.flush_chan) ran
    where
      from_queue :
          (queue : List Which)
          → (elim queue as (λ x. Option (Logger W)) [
            | [] ↦ some l
            | x ∷ rest ↦ flush_set fw (record l { flush_chan = rest }) t loads x
          ])
            ≡ some l'
          → Conserved fw limit w l' acc
      from_queue [] e = let same : l ≡ l' = cc in subst (λ k. Conserved fw limit w k acc) same c
      from_queue (x ∷ rest) e =
          let f =
            flush_set-Flushed fw limit (record l { flush_chan = rest }) c.messages t loads x
              (relabelled-AllHold fw limit l c.messages rest (l.closed) c.holds) in
          let back = f.returned in
          let same : f.after ≡ l' = cc in
          subst (λ k. Conserved fw limit w k acc) same
            (record {
              messages = emptied x c.messages;
              gone = c.gone ++ flat (c.messages x);
              blocks = c.blocks ++ f.blocks;
              holds = f.holds;
              carried =
                  more (capacities_of x (record l { flush_chan = rest })) (c.messages x) f.blocks
                    c.carried f.carried;
              wrote =
                  subst (Wrote fw w (c.blocks ++ f.blocks)) (sym f.file)
                    (Wrote.batch c.wrote f.blocks);
              same = Perm.trans c.same (emptied-perm c.gone x c.messages);
            })

  -- However calls of LogBytes, with payloads that are not empty and have at most `limit` bytes, ticks
  -- and flushes follow one another on a new logger, and whatever the file writer answers: the messages that were accepted are, each as often as it was accepted, those
  -- in the blocks that the file writer was given together with those that the buffers hold.
  pub History-Conserved :
      (n : ℕ) (l0 l : Logger W) (acc : List Bytes)
      → IsFresh limit n w l0
      → History fw limit l0 l acc
      → Conserved fw limit w l acc
  History-Conserved n l0 l acc v start = fresh-Conserved n l0 v
  History-Conserved n l0 l acc v
        (accepted {l = k} {acc = before} p acquired h short ne opened ran e) =
      let c = History-Conserved n l0 k before v h in
      elim (log-Conserved p acquired c short ne opened ran) [
        | inl (f, d) ↦ d
        | inr (f, d) ↦ absurd (not_both (l.stats.dropped_logs) (k.stats.dropped_logs) e f)
      ]
  History-Conserved n l0 l acc v (dropped {l = k} p acquired h short ne opened ran e) =
      let c = History-Conserved n l0 k acc v h in
      elim (log-Conserved p acquired c short ne opened ran) [
        | inl (f, d) ↦ absurd (not_both (l.stats.dropped_logs) (k.stats.dropped_logs) f e)
        | inr (f, d) ↦ d
      ]
  History-Conserved n l0 l acc v (ticked {l = k} h) =
      tick-Conserved k acc (History-Conserved n l0 k acc v h)
  History-Conserved n l0 l acc v (received {l = k} t loads h ran) =
      receive-Conserved k acc t loads (History-Conserved n l0 k acc v h) ran
