-- ===== src/Logger/Worker.antt =====
-- The flush worker, the ticker and Close of asyncloguploader/logger.go, one step at a time.
use logger_double_buffer.Base.{
  ℕ, ◌+◌, Bool, true, false, ◌&&◌, Option, none, some, List, [], ◌∷◌, ◌++◌, leb, ◌==◌,
  if◌then◌else◌, ◌>>=◌, length,
}
use logger_double_buffer.Base.Int32
use logger_double_buffer.Shard
use logger_double_buffer.Shard.{Shard, header_offset}
use logger_double_buffer.ShardCollection
use logger_double_buffer.ShardCollection.{ShardCollection, Channel, store_shard, try_send}
use logger_double_buffer.Logger.{Logger, FileWriter}
use logger_double_buffer.Logger.Flush.{Loads, Timing, flush_shards}

-- The search for a shard's id in the flush list.
unfoldable pub in_list : ℕ → List ℕ → Bool
in_list i [] = false
in_list i (j ∷ js) = if j == i then true else in_list i js

-- A shard that is not in the list goes to its end.
unfoldable pub add_once : ℕ → List ℕ → List ℕ
unfolding in_list
add_once i list = if in_list i list then list else list ++ i ∷ []

unfoldable pub add_all : List ℕ → List ℕ → List ℕ
unfolding add_once
add_all [] list = list
add_all (i ∷ is) list = add_all is (add_once i list)

-- The requests that wait in the channel.
abbrev pub waiting : Option Channel → List ℕ
waiting none = []
waiting (some c) = c.queue

abbrev pub emptied : Option Channel → Option Channel
emptied none = none
emptied (some c) = some (record c { queue = [] })

-- The ticker's sends of all ready shards.
unfoldable pub send_all : List ℕ → Option Channel → Option Channel
send_all is none = none
send_all [] (some c) = some c
send_all (i ∷ is) (some c) = send_all is (some (try_send i c))

-- Close's pass over the shards: one with data on the active side is marked and swapped.
unfoldable pub prepare : Shard → Shard
prepare s =
    if Int32.gt (Shard.offset s) header_offset
    then Shard.try_swap (record s { ready_for_flush = true })
    else s

unfoldable pub holds_data : Shard → Bool
holds_data s = if Int32.gt (Shard.offset s) header_offset then true else Shard.has_data s

unfoldable pub prepare_from : ℕ → List Shard → List ℕ × List Shard
unfolding prepare holds_data
prepare_from i [] = ([], [])
prepare_from i (s ∷ ss) =
    let rest = prepare_from (i + 1) ss in
    ((if holds_data s then i ∷ rest.0 else rest.0), prepare s ∷ rest.1)

module _ {W : Type 0} where
  abbrev pub with_chan : Logger W → Option Channel → Logger W
  with_chan l chan = record l { collection = record (l.collection) { flush_chan = chan } }

  -- A tick: the ready shards are queued, if some shard has data and the threshold is reached.
  unfoldable pub tick : Logger W → Logger W
  unfolding send_all
  tick l =
      if ShardCollection.has_data l.collection && ShardCollection.threshold_reached l.collection
      then with_chan l
          (send_all (ShardCollection.get_ready_shards l.collection) l.collection.flush_chan)
      else l

  module _ (fw : FileWriter W) where
    -- The worker with its flush list receives a shard: it is flushed with the others when the list
    -- is as long as the threshold.
    unfoldable pub receive :
        Logger W → Timing → (ℕ → Loads) → List ℕ → ℕ → Option (List ℕ × Logger W)
    unfolding add_once
    receive l t loads list i =
        let list' = add_once i list in
        if leb l.collection.threshold (length list')
        then (flush_shards fw l t loads list' >>= λ l'. some ([], l'))
        else some (list', l)

    -- drainFlushChannel
    unfoldable pub drain_flush_channel : Logger W → Timing → (ℕ → Loads) → Option (Logger W)
    unfolding add_all
    drain_flush_channel l t loads = elim (add_all (waiting l.collection.flush_chan) []) [
      | [] ↦ some (with_chan l (emptied l.collection.flush_chan))
      | i ∷ is ↦ flush_shards fw (with_chan l (emptied l.collection.flush_chan)) t loads (i ∷ is)
    ]

    -- The worker when `done` is closed: the channel first, then its list.
    unfoldable pub finish_worker : Logger W → Timing → (ℕ → Loads) → List ℕ → Option (Logger W)
    unfolding drain_flush_channel
    finish_worker l t loads [] = drain_flush_channel l t loads
    finish_worker l t loads (i ∷ is) =
        drain_flush_channel l t loads >>= λ l'. flush_shards fw l' t loads (i ∷ is)

  module _ (fw : FileWriter W) where
    -- The final flush of Close, if any shard has data.
    unfoldable pub final_flush : Logger W → Timing → (ℕ → Loads) → List ℕ → Option (Logger W)
    final_flush l t loads [] = some l
    final_flush l t loads (i ∷ is) = flush_shards fw l t loads (i ∷ is)

    -- Close; the Boolean is the writer's error. A second call does nothing.
    unfoldable pub close : Logger W → Timing → (ℕ → Loads) → Option (Bool × Logger W)
    unfolding drain_flush_channel final_flush prepare_from
    close l t loads =
        if l.closed
        then some (false, l)
        else (drain_flush_channel fw (record l { closed = true }) t loads >>= λ drained.
            let prepared = prepare_from 0 drained.collection.shards in
            let ready = record drained {
              collection = record (drained.collection) { shards = prepared.1 };
            } in
            final_flush ready t loads prepared.0 >>= λ flushed.
            let closed_writer = fw.close flushed.file_writer in
            some (
              closed_writer.1,
              record flushed {
                collection = ShardCollection.close flushed.collection;
                file_writer = closed_writer.0;
              },
            ))
