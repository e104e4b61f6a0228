-- ===== src/Logger/Queue.antt =====
-- The flush list of the worker, and Close.
use logger_double_buffer.Base.{
  ℕ, ◌≡◌, ◌⊎◌, inl, inr, refl, Bool, true, false, ◌||◌, some, List, [], ◌∷◌, ◌++◌, arith, ◌==◌,
  Bool-cases, Option-cases,
}
use logger_double_buffer.Logger.{Logger, FileWriter}
use logger_double_buffer.Logger.Flush.{Loads, Timing, flush_shards}
use logger_double_buffer.Logger.Worker.{
  in_list, waiting, emptied, with_chan, add_once, add_all, close, drain_flush_channel, final_flush,
  prepare_from,
}

-- No shard stands twice in a flush list.
abbrev pub Unique : List ℕ → Type 0
Unique [] = Unit
Unique (j ∷ js) = (in_list j js ≡ false) × Unique js

in_list-snoc : (i j : ℕ) (js : List ℕ) → in_list i (js ++ j ∷ []) ≡ (in_list i js || (j == i))
unfolding in_list
in_list-snoc i j [] = ground arith
in_list-snoc i j (k ∷ js) = ground (arith, in_list-snoc i j js)

Unique-snoc : (j : ℕ) (js : List ℕ) → in_list j js ≡ false → Unique js → Unique (js ++ j ∷ [])
unfolding in_list
Unique-snoc j [] new u = (refl, tt)
Unique-snoc j (k ∷ js) new u =
    (ground (arith, in_list-snoc k j js), Unique-snoc j js (ground arith) u.1)

add_once-Unique : (i : ℕ) (js : List ℕ) → Unique js → Unique (add_once i js)
unfolding add_once
add_once-Unique i js u = elim (Bool-cases (in_list i js)) [
  | inl e ↦ rw e u
  | inr e ↦ rw e (Unique-snoc i js e u)
]

add_once-has :
    (i j : ℕ) (js : List ℕ) → (in_list j js ≡ true) ⊎ (j ≡ i) → in_list j (add_once i js) ≡ true
unfolding add_once
add_once-has i j js (inl h) = ground (arith, in_list-snoc j i js)
add_once-has i j js (inr h) = ground (arith, in_list-snoc j i js)

-- Adding requests to a flush list without duplicates leaves it without duplicates, and every shard
-- that was in the list or among the requests is in it.
pub add_all-Unique :
    (is list : List ℕ) (j : ℕ)
    → Unique list
    → (in_list j list ≡ true) ⊎ (in_list j is ≡ true)
    → Unique (add_all is list) × (in_list j (add_all is list) ≡ true)
unfolding add_all in_list
add_all-Unique [] list j u h = (u, ground arith)
add_all-Unique (i ∷ is) list j u h =
    add_all-Unique is (add_once i list) j (add_once-Unique i list u) (step h)
  where
    step :
        (in_list j list ≡ true) ⊎ (in_list j (i ∷ is) ≡ true)
        → (in_list j (add_once i list) ≡ true) ⊎ (in_list j is ≡ true)
    step (inl h) = inl (add_once-has i j list (inl h))
    step (inr h) = elim (Bool-cases (i == j)) [
      | inl e ↦ inl (add_once-has i j list (inr (ground arith)))
      | inr e ↦ inr (ground arith)
    ]

list_cases : (is : List ℕ) → (is ≡ []) ⊎ ((i : ℕ) × (js : List ℕ) × (is ≡ i ∷ js))
list_cases [] = inl refl
list_cases (i ∷ is) = inr (i, is, refl)

module _ {W : Type 0} where
  module _ (fw : FileWriter W) where
    flush_shards-closed :
        (l : Logger W) (t : Timing) (loads : ℕ → Loads) (is : List ℕ) {l' : Logger W}
        → flush_shards fw l t loads is ≡ some l'
        → l'.closed ≡ l.closed
    unfolding flush_shards
    flush_shards-closed l t loads is ran = ground arith

    drain-closed :
        (l : Logger W) (t : Timing) (loads : ℕ → Loads) {l' : Logger W}
        → drain_flush_channel fw l t loads ≡ some l'
        → l'.closed ≡ l.closed
    unfolding drain_flush_channel
    drain-closed l t loads {l'} ran =
        elim (list_cases (add_all (waiting l.collection.flush_chan) [])) [
          | inl e ↦ ground arith
          | inr (i, is, e) ↦
              let taken = with_chan l (emptied l.collection.flush_chan) in
              let flushed : flush_shards fw taken t loads (i ∷ is) ≡ some l' = ground arith in
              flush_shards-closed taken t loads (i ∷ is) flushed
        ]

    final-closed :
        (l : Logger W) (t : Timing) (loads : ℕ → Loads) (is : List ℕ) {l' : Logger W}
        → final_flush fw l t loads is ≡ some l'
        → l'.closed ≡ l.closed
    unfolding final_flush
    final-closed l t loads [] ran = ground arith
    final-closed l t loads (i ∷ is) ran = flush_shards-closed l t loads (i ∷ is) ran

    unless_closed :
        (l : Logger W) (t : Timing) (loads : ℕ → Loads)
        → l.closed ≡ true
        → close fw l t loads ≡ some (false, l)
    unfolding close
    unless_closed l t loads e = ground arith

    close_againd :
        (l : Logger W) (t : Timing) (loads : ℕ → Loads) {b : Bool} {l' : Logger W}
        → close fw l t loads ≡ some (b, l')
        → l'.closed ≡ true
    unfolding close
    close_againd l t loads ran = elim (Bool-cases l.closed) [
      | inl e ↦ ground arith
      | inr e ↦ elim (Option-cases (drain_flush_channel fw (record l { closed = true }) t loads)) [
        | inl bad ↦ absurd (ground arith)
        | inr (drained, first) ↦
            let prepared = prepare_from 0 drained.collection.shards in
            let ready = record drained {
              collection = record (drained.collection) { shards = prepared.1 };
            } in
            elim (Option-cases (final_flush fw ready t loads prepared.0)) [
              | inl bad ↦ absurd (ground arith)
              | inr (flushed, second) ↦
                  let open1 = drain-closed (record l { closed = true }) t loads first in
                  let open2 = final-closed ready t loads prepared.0 second in ground arith
            ]
      ]
    ]

    -- After a Close that returns, the logger is closed: a second Close does nothing and returns no
    -- error.
    pub close_again :
        (l : Logger W) (t t2 : Timing) (loads loads2 : ℕ → Loads) {b : Bool} {l' : Logger W}
        → close fw l t loads ≡ some (b, l')
        → close fw l' t2 loads2 ≡ some (false, l')
    close_again l t t2 loads loads2 {b} {l'} ran =
        unless_closed l' t2 loads2 (close_againd l t loads ran)
