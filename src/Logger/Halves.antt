-- ===== src/Logger/Halves.antt =====
-- The two halves of collecting a shard, its waiting side and then its active one.
use native.Mathlib.Decide.{dec_lt}
use logger_double_buffer.Base.{
  ℕ, ◌<◌, ◌≡◌, ◌≢◌, refl, subst, ◌∙◌, ap, some, List, [], ◌∷◌, ◌++◌, arith, lt→ltb, le→ltb,
}
use logger_double_buffer.Base.Bytes.{Bytes}
use logger_double_buffer.Shard
use logger_double_buffer.Shard.{
  Shard, Side, header_offset, active_side, other, buffer, offset_of, store_buffer, try_swap,
  reset_enhanced, wait_inflight,
}
use logger_double_buffer.Shard.Invariant.{
  IsValid, side_valid, try_swap-IsValid, reset_enhanced-IsValid,
}
use logger_double_buffer.Shard.Contents.{Messages, messages, Represents}
use logger_double_buffer.Shard.Outcome.{empty_iff, try_swap-Represents}
use logger_double_buffer.Shard.Reset.{inactive_side, gt-header, reset_enhanced-clears}
use logger_double_buffer.Logger.Flush.{
  Loads, collect_shard, collect, collect_inactive, collect_active, with_header, valid_bytes,
}
use logger_double_buffer.Logger.Blocks.{
  AllCarry, AllCarry-append, Carries, Represents-header, collect-eq, groups, groups-of,
  store_buffer-IsValid, with_header-Carries,
}

-- A half of the flush, from `s`: what it wrote for the side `x`, and the shard it left.
record Half (x : Side) (s : Shard) (m : Messages) (bs : List Bytes) (t : Shard) : Type 0 where
  valid : IsValid t
  holds : Represents t m
  carried : AllCarry s.capacity (groups (messages x m)) bs
  same_capacity : t.capacity ≡ s.capacity
  same_a : t.offset_a ≡ s.offset_a
  same_b : t.offset_b ≡ s.offset_b

abbrev headed : Side → Shard → Bytes
headed x s = with_header s.capacity (valid_bytes (offset_of x s)) (buffer x s)

headed-Half :
    (x : Side) (s : Shard) (m : Messages)
    → IsValid s
    → Represents s m
    → messages x m ≢ []
    → Half x s m (headed x s ∷ []) (store_buffer x (headed x s) s)
      × ((store_buffer x (headed x s) s).active ≡ s.active)
headed-Half x s m v r ne = (
  record {
    valid = store_buffer-IsValid x (headed x s) v carries.full_size;
    holds = Represents-header x s.capacity (valid_bytes (offset_of x s)) r;
    carried = groups-of s.capacity (messages x m) (headed x s) ne carries;
    same_capacity = same.0;
    same_a = same.1;
    same_b = same.2;
  },
  same.3,
)
  where
    carries : Carries s.capacity (messages x m) (headed x s)
    carries = with_header-Carries x v r

    kept :
        (y : Side) (buf : Bytes)
        → ((store_buffer y buf s).capacity ≡ s.capacity)
          × ((store_buffer y buf s).offset_a ≡ s.offset_a)
          × ((store_buffer y buf s).offset_b ≡ s.offset_b)
          × ((store_buffer y buf s).active ≡ s.active)
    kept Side.a buf = (refl, refl, refl, refl)
    kept Side.b buf = (refl, refl, refl, refl)

    same :
        ((store_buffer x (headed x s) s).capacity ≡ s.capacity)
        × ((store_buffer x (headed x s) s).offset_a ≡ s.offset_a)
        × ((store_buffer x (headed x s) s).offset_b ≡ s.offset_b)
        × ((store_buffer x (headed x s) s).active ≡ s.active)
    same = kept x (headed x s)

collect-Half :
    (s : Shard) (m : Messages) (loads : List ℕ)
    → IsValid s
    → Represents s m
    → header_offset < offset_of (inactive_side s) s
    → (bs : List Bytes) × (t : Shard) × (collect s loads ≡ some (bs, t))
      × Half (inactive_side s) s m bs t
      × (t.active ≡ s.active)
collect-Half s m loads v r h =
    let y = inactive_side s in
    let ne : messages y m ≢ [] = λ e. absurd (omega (arith, (empty_iff y v r).1 e)) in
    let half = headed-Half y s m v r ne in
    (headed y s ∷ [], store_buffer y (headed y s) s, collect-eq s loads v h, half.0, half.1)

-- An empty side gives no block.
nothing-Half :
    (x : Side) (s : Shard) (m : Messages)
    → IsValid s
    → Represents s m
    → ¬ (header_offset < offset_of x s)
    → Half x s m [] s
nothing-Half x s m v r h = record {
  valid = v;
  holds = r;
  carried = let w = side_valid x v in rw ((empty_iff x v r).0 (omega arith)) tt;
  same_capacity = refl;
  same_a = refl;
  same_b = refl;
}

inactive-Half :
    (s : Shard) (m : Messages) (loads : List ℕ)
    → IsValid s
    → Represents s m
    → (bs : List Bytes) × (t : Shard) × (collect_inactive s loads ≡ some (bs, t))
      × Half (inactive_side s) s m bs t
      × (t.active ≡ s.active)
unfolding Shard.has_data
inactive-Half s m loads v r = elim (dec_lt header_offset (offset_of (inactive_side s) s)) [
  | yes h ↦
      let (bs, t, e, half, same) = collect-Half s m loads v r h in
      (bs, t, rw (gt-header (inactive_side s) v, lt→ltb _ _ h) e, half, same)
  | no h ↦ (
    [],
    s,
    rw (
      gt-header (inactive_side s) v,
      le→ltb header_offset (offset_of (inactive_side s) s) (omega arith),
    ),
    nothing-Half (inactive_side s) s m v r h,
    refl,
  )
]

swapped-side : (t : Shard) → IsValid t → inactive_side (try_swap t) ≡ active_side t.active
unfolding try_swap
swapped-side t v = ground arith

swapped-same :
    (t : Shard)
    → ((try_swap t).capacity ≡ t.capacity)
      × ((try_swap t).offset_a ≡ t.offset_a)
      × ((try_swap t).offset_b ≡ t.offset_b)
unfolding try_swap
swapped-same t = ground arith

-- A shard that ResetEnhanced leaves with nothing.
abbrev pub Clearable : Shard → Type 0
Clearable t =
    header_offset < offset_of (active_side t.active) t
    → header_offset < offset_of (inactive_side t) t

offset_of-same :
    (x : Side) (t u : Shard)
    → t.offset_a ≡ u.offset_a
    → t.offset_b ≡ u.offset_b
    → offset_of x t ≡ offset_of x u
offset_of-same Side.a t u p q = p
offset_of-same Side.b t u p q = q

-- The half that follows a swap, in terms of the shard before it.
after_swap :
    (x : Side) (s : Shard) (m : Messages) (loads : List ℕ)
    → IsValid s
    → Represents s m
    → active_side s.active ≡ x
    → header_offset < offset_of x s
    → (bs : List Bytes) × (t : Shard) × (collect (try_swap s) loads ≡ some (bs, t))
      × Half x s m bs t
      × Clearable t
after_swap x s m loads v r is_x h =
    let s' = try_swap s in
    let e' : inactive_side s' ≡ x = swapped-side s v ∙ is_x in
    let same = swapped-same s in
    let off : offset_of x s' ≡ offset_of x s = offset_of-same x s' s same.1 same.2 in
    let h' : header_offset < offset_of (inactive_side s') s' = rw e' (omega arith) in
    let (bs, t, e, half, act) =
      collect-Half s' m loads (try_swap-IsValid v) (try_swap-Represents s m r) h' in
    let waits : inactive_side t ≡ x = ap (λ p. other (active_side p)) act ∙ e' in
    (
      bs,
      t,
      e,
      record {
        valid = half.valid;
        holds = half.holds;
        carried =
            subst (λ c. AllCarry c (groups (messages x m)) bs) same.0
              (subst (λ y. AllCarry s'.capacity (groups (messages y m)) bs) e' half.carried);
        same_capacity = half.same_capacity ∙ same.0;
        same_a = half.same_a ∙ same.1;
        same_b = half.same_b ∙ same.2;
      },
      λ _. rw waits (omega (arith, offset_of-same x t s' half.same_a half.same_b)),
    )

active-Half :
    (s : Shard) (m : Messages) (loads : List ℕ)
    → IsValid s
    → Represents s m
    → (bs : List Bytes) × (t : Shard) × (collect_active s loads ≡ some (bs, t))
      × Half (active_side s.active) s m bs t
      × Clearable t
unfolding Shard.offset
active-Half s m loads v r = elim (dec_lt header_offset (offset_of (active_side s.active) s)) [
  | yes h ↦
      let (bs, t, e, half, clear) = after_swap (active_side s.active) s m loads v r refl h in
      (bs, t, rw (gt-header (active_side s.active) v, lt→ltb _ _ h) e, half, clear)
  | no h ↦ (
    [],
    s,
    rw (
      gt-header (active_side s.active) v,
      le→ltb header_offset (offset_of (active_side s.active) s) (omega arith),
    ),
    nothing-Half (active_side s.active) s m v r h,
    λ k. absurd (h k),
  )
]

-- What collecting leaves: the blocks carry the messages, which are still in the shard, and a reset
-- will clear it.
pub record Taken (s : Shard) (m : Messages) (bs : List Bytes) (t : Shard) : Type 0 where
  pub carried :
      AllCarry s.capacity
        (groups (messages (inactive_side s) m) ++ groups (messages (active_side s.active) m))
        bs
  pub valid : IsValid t
  pub holds : Represents t m
  pub clear : Clearable t

pub collect_shard-Taken :
    (s : Shard) (m : Messages) (loads : Loads)
    → IsValid s
    → Represents s m
    → (bs : List Bytes) × (t : Shard) × (collect_shard s loads ≡ some (bs, t)) × Taken s m bs t
unfolding collect_shard
collect_shard-Taken s m loads v r =
    let (bs, t, e, half, act) = inactive-Half s m loads.first v r in
    let (cs, u, e', half', clear) = active-Half t m loads.second half.valid half.holds in
    (
      bs ++ cs,
      u,
      rw (e, e'),
      record {
        carried =
            AllCarry-append s.capacity (groups (messages (inactive_side s) m))
              (groups (messages (active_side s.active) m)) bs cs half.carried
              (subst (λ c. AllCarry c (groups (messages (active_side s.active) m)) cs)
                half.same_capacity
                (subst (λ p. AllCarry t.capacity (groups (messages (active_side p) m)) cs) act
                  half'.carried));
        valid = half'.valid;
        holds = half'.holds;
        clear = clear;
      },
    )

-- Collecting a valid shard takes every message that it holds: it makes one block for each side
-- that holds any, the waiting side's first, each with the messages of its side in their order;
-- and after the reset the shard is valid and holds nothing.
pub collect_shard_lem :
    (s : Shard) (m : Messages) (loads : Loads)
    → IsValid s
    → Represents s m
    → (bs : List Bytes) × (t : Shard) × (collect_shard s loads ≡ some (bs, t))
      × AllCarry s.capacity
          (groups (messages (inactive_side s) m) ++ groups (messages (active_side s.active) m))
          bs
      × IsValid t
      × IsValid (reset_enhanced t)
      × Represents (reset_enhanced t) (record { on_a = []; on_b = [] })
collect_shard_lem s m loads v r =
    let (bs, t, e, taken) = collect_shard-Taken s m loads v r in
    (
      bs,
      t,
      e,
      taken.carried,
      taken.valid,
      reset_enhanced-IsValid taken.valid,
      reset_enhanced-clears t taken.valid taken.clear,
    )
