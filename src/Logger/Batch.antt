-- ===== src/Logger/Batch.antt =====
-- A flush of a whole list of shards, and the messages that they hold.
use logger_double_buffer.Base.{
  ℕ, ◌<◌, ◌≡◌, ◌≢◌, refl, sym, subst, ◌∙◌, ap, true, false, some, List, [], ◌∷◌, ◌++◌, arith,
  length, get_elem?, set, All, length-set,
}
use logger_double_buffer.Base.Bytes.{Bytes}
use logger_double_buffer.Shard.{Shard, active_side}
use logger_double_buffer.Shard.Contents.{Messages, messages}
use logger_double_buffer.Shard.Reset.{inactive_side}
use logger_double_buffer.ShardCollection
use logger_double_buffer.ShardCollection.{ShardCollection, store_shard}
use logger_double_buffer.ShardCollection.Writes.{Held, Held-At, Held-set, set-same}
use logger_double_buffer.Logger.{Logger, FileWriter}
use logger_double_buffer.Logger.Flush.{
  Loads, Timing, collect_shard, collect_all, reset_shards, write_batch, count_flush, flush_shards,
}
use logger_double_buffer.Logger.Worker.{in_list}
use logger_double_buffer.Logger.Queue.{Unique}
use logger_double_buffer.Logger.Blocks.{AllCarry, groups}
use logger_double_buffer.Logger.Halves.{Taken, collect_shard-Taken}
use logger_double_buffer.Logger.Resets.{
  get-set_other, get-set_here, in_list-cons, nothing, no_blocks, Collected, clear_all, Clear,
  reset_shards-Held,
}

-- What collecting the listed shards leaves behind.
record Done (sc : ShardCollection) (ms : List Messages) (ready : List ℕ) (bs : List Bytes)
    (to_reset : List ℕ) (sc' : ShardCollection) : Type 0 where
  collected : Collected sc.shards ms ready bs
  held : Held sc'.shards ms
  frame : (j : ℕ) → in_list j ready ≡ false → get_elem? sc'.shards j ≡ get_elem? sc.shards j
  same_length : length sc'.shards ≡ length sc.shards
  unique : Unique to_reset
  fewer : (j : ℕ) → in_list j ready ≡ false → in_list j to_reset ≡ false
  clear : All (Clear sc'.shards) to_reset
  cleared :
      (ms' : List Messages)
      → ((j : ℕ) → in_list j ready ≡ true → get_elem? ms' j ≡ get_elem? ms j)
      → clear_all to_reset ms' ≡ clear_all ready ms'

Collected-set :
    (ss : List Shard) (ms : List Messages) (i : ℕ) (v : Shard) (is : List ℕ) (bs : List Bytes)
    → in_list i is ≡ false
    → Collected (set ss i v) ms is bs
    → Collected ss ms is bs
Collected-set ss ms i v [] bs new c = c
Collected-set ss ms i v (j ∷ is) bs new (s, m, b1, b2, e, f, g, carried, rest) =
    let (ne, new') = in_list-cons i j is new in
    (
      s,
      m,
      b1,
      b2,
      sym (get-set_other ss i j v (λ q. ne (sym q))) ∙ e,
      f,
      g,
      carried,
      Collected-set ss ms i v is b2 new' rest,
    )

abbrev to_reset_of : List Bytes → ℕ → List ℕ → List ℕ
to_reset_of [] i rest = rest
to_reset_of (b ∷ bs) i rest = i ∷ rest

collect_all-step :
    (sc : ShardCollection) (loads : ℕ → Loads) (i : ℕ) (ready : List ℕ) {s t : Shard}
    {b1 b2 : List Bytes} {rs : List ℕ} {sc' : ShardCollection}
    → get_elem? sc.shards i ≡ some s
    → collect_shard s (loads i) ≡ some (b1, t)
    → collect_all (store_shard sc i t) loads ready ≡ some (b2, rs, sc')
    → collect_all sc loads (i ∷ ready) ≡ some (b1 ++ b2, to_reset_of b1 i rs, sc')
unfolding collect_all
collect_all-step sc loads i ready {b1 = []} e f g = rw (e, f, g) refl
collect_all-step sc loads i ready {b1 = b ∷ b1} e f g = rw (e, f, g) (ground arith)

-- One shard more: its own collecting, and then that of the rest.
module _ (sc : ShardCollection) (ms : List Messages) (i : ℕ) (ready : List ℕ) {s t : Shard}
    {m : Messages} {b1 b2 : List Bytes} {rs : List ℕ} {sc' : ShardCollection}
    (bounded : i < length sc.shards) (new : in_list i ready ≡ false)
    (is_shard : get_elem? sc.shards i ≡ some s) (is_held : get_elem? ms i ≡ some m)
    (taken : Taken s m b1 t) (d : Done (store_shard sc i t) ms ready b2 rs sc') where
  to_reset-fewer : (j : ℕ) → in_list j (i ∷ ready) ≡ false → in_list j (to_reset_of b1 i rs) ≡ false
  unfolding in_list
  to_reset-fewer j h = fewer_of b1 (in_list-cons j i ready h)
    where
      fewer_of :
          (bs : List Bytes)
          → (i ≢ j) × (in_list j ready ≡ false)
          → in_list j (to_reset_of bs i rs) ≡ false
      fewer_of [] (ne, rest) = d.fewer j rest
      fewer_of (b ∷ bs) (ne, rest) = let k = d.fewer j rest in ground arith

  to_reset-Unique : Unique (to_reset_of b1 i rs)
  to_reset-Unique = unique_of b1
    where
      unique_of : (bs : List Bytes) → Unique (to_reset_of bs i rs)
      unique_of [] = d.unique
      unique_of (b ∷ bs) = (d.fewer i new, d.unique)

  to_reset-Clear : All (Clear sc'.shards) (to_reset_of b1 i rs)
  to_reset-Clear = clear_of b1
    where
      clear_of : (bs : List Bytes) → All (Clear sc'.shards) (to_reset_of bs i rs)
      clear_of [] = d.clear
      clear_of (b ∷ bs) = (
        record {
          shard = t;
          is_shard = d.frame i new ∙ get-set_here sc.shards i t bounded;
          bounded = let e = d.same_length in let f = length-set sc.shards i t in omega arith;
          clear = taken.clear;
        },
        d.clear,
      )

  to_reset-cleared :
      (ms' : List Messages)
      → ((j : ℕ) → in_list j (i ∷ ready) ≡ true → get_elem? ms' j ≡ get_elem? ms j)
      → clear_all (to_reset_of b1 i rs) ms' ≡ clear_all (i ∷ ready) ms'
  unfolding in_list
  to_reset-cleared ms' same = cleared_of b1 taken.carried
    where
      listed : (j : ℕ) → in_list j ready ≡ true → in_list j (i ∷ ready) ≡ true
      listed j h = ground arith

      here : in_list i (i ∷ ready) ≡ true
      here = ground arith

      distinct : (j : ℕ) → in_list j ready ≡ true → i ≢ j
      distinct j h e = let f : in_list i ready ≡ true = rw e h in cc

      cleared_of :
          (bs : List Bytes)
          → AllCarry s.capacity
              (groups (messages (inactive_side s) m) ++ groups (messages (active_side s.active) m))
              bs
          → clear_all (to_reset_of bs i rs) ms' ≡ clear_all (i ∷ ready) ms'
      cleared_of [] carried =
          let empty = no_blocks (active_side s.active) s.capacity m carried in
          let kept : set ms' i nothing ≡ ms' =
            set-same ms' i nothing (same i here ∙ (is_held ∙ ap some empty)) in
          d.cleared ms' (λ j h. same j (listed j h)) ∙ ap (clear_all ready) (sym kept)
      cleared_of (b ∷ bs) carried =
          d.cleared (set ms' i nothing)
            (λ j h. get-set_other ms' i j nothing (distinct j h) ∙ same j (listed j h))

  to_reset-Done : Done sc ms (i ∷ ready) (b1 ++ b2) (to_reset_of b1 i rs) sc'
  to_reset-Done = record {
    collected = (
      s,
      m,
      b1,
      b2,
      is_shard,
      is_held,
      refl,
      taken.carried,
      Collected-set sc.shards ms i t ready b2 new d.collected,
    );
    held = d.held;
    frame = λ j h.
        let (ne, rest) = in_list-cons j i ready h in
        d.frame j rest ∙ get-set_other sc.shards i j t ne;
    same_length = d.same_length ∙ length-set sc.shards i t;
    unique = to_reset-Unique;
    fewer = to_reset-fewer;
    clear = to_reset-Clear;
    cleared = to_reset-cleared;
  }

bounded_after :
    (ss : List Shard) (i : ℕ) (t : Shard) (is : List ℕ)
    → All (λ j. j < length ss) is
    → All (λ j. j < length (set ss i t)) is
bounded_after ss i t [] h = tt
bounded_after ss i t (j ∷ is) h =
    (let e = length-set ss i t in let k = h.0 in omega arith, bounded_after ss i t is h.1)

collect_all-Done :
    (sc : ShardCollection) (ms : List Messages) (loads : ℕ → Loads) (ready : List ℕ)
    → Held sc.shards ms
    → Unique ready
    → All (λ i. i < length sc.shards) ready
    → (bs : List Bytes) × (rs : List ℕ) × (sc' : ShardCollection) × (collect_all sc loads ready
        ≡ some (bs, rs, sc'))
      × Done sc ms ready bs rs sc'
unfolding collect_all
collect_all-Done sc ms loads [] held u lt = (
  [],
  [],
  sc,
  refl,
  record {
    collected = refl;
    held = held;
    frame = λ j h. refl;
    same_length = refl;
    unique = tt;
    fewer = λ j h. h;
    clear = tt;
    cleared = λ ms' same. refl;
  },
)
collect_all-Done sc ms loads (i ∷ ready) held u lt =
    let at = Held-At sc.shards ms i held lt.0 in
    let (b1, t, ran, taken) =
      collect_shard-Taken at.shard at.held (loads i) at.valid at.represents in
    let stored =
      subst (Held (set sc.shards i t)) (set-same ms i at.held at.is_held)
        (Held-set sc.shards ms i t at.held held taken.valid taken.holds) in
    let bounded = bounded_after sc.shards i t ready lt.1 in
    let (b2, rs, sc', ran', d) =
      collect_all-Done (store_shard sc i t) ms loads ready stored u.1 bounded in
    (
      b1 ++ b2,
      to_reset_of b1 i rs,
      sc',
      collect_all-step sc loads i ready at.is_shard ran ran',
      to_reset-Done sc ms i ready lt.0 u.0 at.is_shard at.is_held taken d,
    )

-- What the writer was given: nothing, or all blocks in one call.
abbrev pub written : {W : Type 0} → FileWriter W → W → List Bytes → W
written fw w [] = w
written fw w (b ∷ bs) = (fw.write_vectored w (b ∷ bs)).0

module _ {W : Type 0} (fw : FileWriter W) where
  write_batch-eq :
      (l : Logger W) (t : Timing) (bs : List Bytes)
      → ((write_batch fw l t bs).file_writer ≡ written fw l.file_writer bs)
        × ((write_batch fw l t bs).collection ≡ l.collection)
  unfolding write_batch
  write_batch-eq l t [] = (refl, refl)
  write_batch-eq l t (b ∷ bs) = (refl, refl)

  abbrev after_flush : Logger W → Timing → List Bytes → ShardCollection → ShardCollection → Logger W
  after_flush l t bs sc sc' =
      let w = write_batch fw (record l { collection = sc }) t bs in
      record w {
        collection = ShardCollection.reset_ready_shards sc';
        stats = count_flush w.stats t;
      }

  flush_shards-eq :
      (l : Logger W) (t : Timing) (loads : ℕ → Loads) (ready : List ℕ) {bs : List Bytes}
      {rs : List ℕ} {sc sc' : ShardCollection}
      → collect_all l.collection loads ready ≡ some (bs, rs, sc)
      → reset_shards sc rs ≡ some sc'
      → (l' : Logger W) × (flush_shards fw l t loads ready ≡ some l')
        × (l'.collection.shards ≡ sc'.shards)
        × (l'.file_writer ≡ written fw l.file_writer bs)
  unfolding flush_shards write_batch ShardCollection.reset_ready_shards
  flush_shards-eq l t loads ready {bs = []} {sc = sc} {sc' = sc'} e f =
      (after_flush l t [] sc sc', rw (e, f) refl, refl, refl)
  flush_shards-eq l t loads ready {bs = b ∷ bs} {sc = sc} {sc' = sc'} e f =
      (after_flush l t (b ∷ bs) sc sc', rw (e, f) refl, refl, refl)

  -- Where all shards are valid, a flush of a list of shards without duplicates returns, and gives
  -- the writer, in one call, the blocks of every message of every shard in the list: shard by
  -- shard, the waiting side before the active one, the messages of a side in their order. After
  -- it these shards hold nothing, the other shards hold what they held, and all of them are
  -- valid.
  pub flush_shards_lem :
      (l : Logger W) (ms : List Messages) (t : Timing) (loads : ℕ → Loads) (ready : List ℕ)
      → Held l.collection.shards ms
      → Unique ready
      → All (λ i. i < length l.collection.shards) ready
      → (bs : List Bytes) × (l' : Logger W) × (flush_shards fw l t loads ready ≡ some l')
        × Collected l.collection.shards ms ready bs
        × (l'.file_writer ≡ written fw l.file_writer bs)
        × Held l'.collection.shards (clear_all ready ms)
  flush_shards_lem l ms t loads ready held u lt =
      let (bs, rs, sc, ran, d) = collect_all-Done l.collection ms loads ready held u lt in
      let (sc', ran', held') = reset_shards-Held sc ms rs d.held d.unique d.clear in
      let (l', flushed, shards, file) = flush_shards-eq l t loads ready ran ran' in
      (
        bs,
        l',
        flushed,
        d.collected,
        file,
        subst (λ ss. Held ss (clear_all ready ms)) (sym shards)
            (subst (Held sc'.shards) (d.cleared ms (λ j h. refl)) held'),
      )
