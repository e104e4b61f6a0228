-- ===== src/ShardCollection/Writes.antt =====
-- Writes to a collection, on the messages that its shards hold.
use logger_double_buffer.Base.{
  ℕ, zero, suc, ◌+◌, ◌<◌, ◌≡◌, ◌≢◌, ◌⊎◌, inl, inr, refl, ◌∙◌, ap, subst, Bool, some, List, [], ◌∷◌,
  arith, length, get_elem?, set, All, length-set,
}
use logger_double_buffer.Base.Int.{pos}
use logger_double_buffer.Base.Bytes.{Bytes}
use logger_double_buffer.Shard.{Shard, Side, active_side}
use logger_double_buffer.Shard.Invariant.{IsValid, Fits}
use logger_double_buffer.Shard.Contents.{Messages, Represents, append_to}
use logger_double_buffer.Shard.Outcome.{Stored, write_outcome}
use logger_double_buffer.ShardCollection.{ShardCollection, write, announce, store_shard}

-- Each shard is valid and holds the messages listed for it.
abbrev pub Held : List Shard → List Messages → Type 0
Held [] [] = Unit
Held [] (m ∷ ms) = ⊥
Held (s ∷ ss) [] = ⊥
Held (s ∷ ss) (m ∷ ms) = IsValid s × Represents s m × Held ss ms

pub record At (ss : List Shard) (ms : List Messages) (i : ℕ) : Type 0 where
  pub shard : Shard
  pub held : Messages
  pub is_shard : get_elem? ss i ≡ some shard
  pub is_held : get_elem? ms i ≡ some held
  pub valid : IsValid shard
  pub represents : Represents shard held

pub Held-At :
    (ss : List Shard) (ms : List Messages) (i : ℕ) → Held ss ms → i < length ss → At ss ms i
Held-At [] [] i h lt = absurd (omega arith)
Held-At [] (m ∷ ms) i h lt = absurd h
Held-At (s ∷ ss) [] i h lt = absurd h
Held-At (s ∷ ss) (m ∷ ms) zero h lt = record {
  shard = s;
  held = m;
  is_shard = refl;
  is_held = refl;
  valid = h.0;
  represents = h.1;
}
Held-At (s ∷ ss) (m ∷ ms) (suc i) h lt =
    let at = Held-At ss ms i h.2 (omega arith) in
    record {
      shard = at.shard;
      held = at.held;
      is_shard = at.is_shard;
      is_held = at.is_held;
      valid = at.valid;
      represents = at.represents;
    }

pub Held-set :
    (ss : List Shard) (ms : List Messages) (i : ℕ) (s : Shard) (m : Messages)
    → Held ss ms
    → IsValid s
    → Represents s m
    → Held (set ss i s) (set ms i m)
Held-set [] [] i s m h v r = h
Held-set [] (n ∷ ms) i s m h v r = absurd h
Held-set (t ∷ ss) [] i s m h v r = absurd h
Held-set (t ∷ ss) (n ∷ ms) zero s m h v r = (v, r, h.2)
Held-set (t ∷ ss) (n ∷ ms) (suc i) s m h v r = (h.0, h.1, Held-set ss ms i s m h.2 v r)

pub set-same {ℓ} :
    {A : Type ℓ} (xs : List A) (i : ℕ) (x : A) → get_elem? xs i ≡ some x → set xs i x ≡ xs
set-same [] i x e = refl
set-same (y ∷ xs) zero x e = cc
set-same (y ∷ xs) (suc i) x e = ap (◌∷◌ y) (set-same xs i x e)

pub All-at {ℓ κ} :
    {A : Type ℓ} (P : A → Type κ) (xs : List A) (i : ℕ) (x : A)
    → All P xs
    → get_elem? xs i ≡ some x
    → P x
All-at P [] i x h e = cc
All-at P (y ∷ xs) zero x h e = subst P (cc) h.0
All-at P (y ∷ xs) (suc i) x h e = All-at P xs i x h.1 e

pub All-set {ℓ κ} :
    {A : Type ℓ} (P : A → Type κ) (xs : List A) (i : ℕ) (x : A)
    → All P xs
    → P x
    → All P (set xs i x)
All-set P [] i x h p = h
All-set P (y ∷ xs) zero x h p = (p, h.1)
All-set P (y ∷ xs) (suc i) x h p = (h.0, All-set P xs i x h.1 p)

same_capacity : (s t : Shard) (p : Bytes) → t.capacity ≡ s.capacity → Fits s p → Fits t p
same_capacity s t p e h = omega arith

-- What a write to shard `i` did: nothing, or the payload at the end of one side of that shard.
abbrev pub Added : ℕ → Bytes → List Messages → List Messages → Type 0
Added i p ms ms' =
    (x : Side) × (m : Messages) × (get_elem? ms i ≡ some m) × (ms' ≡ set ms i (append_to x p m))

abbrev pub Took : ℕ → Bytes → ℕ → List Messages → List Messages → Type 0
Took i p n ms ms' = ((n ≡ 0) × (ms' ≡ ms)) ⊎ ((n ≡ 4 + length p) × Added i p ms ms')

announce-shards :
    (sc : ShardCollection) (i : ℕ) (b : Bool)
    → ((announce sc i b).shards ≡ sc.shards) × ((announce sc i b).num_shards ≡ sc.num_shards)
unfolding announce
announce-shards sc i b = ground arith

pub Took-of :
    (i : ℕ) (p : Bytes) (n : ℕ) (ms : List Messages) (x : Side) {m m' : Messages}
    → get_elem? ms i ≡ some m
    → Stored x p n m m'
    → Took i p n ms (set ms i m')
Took-of i p n ms x {m} {m'} e (inl (z, same)) = inl (z, ap (set ms i) same ∙ set-same ms i m e)
Took-of i p n ms x {m} {m'} e (inr (z, added)) = inr (z, (x, m, e, ap (set ms i) added))

-- Where all shards are valid, the index picked is that of a shard, and the payload is not empty
-- and small enough for every shard, a write takes the whole payload into the picked shard or
-- changes no message; the shards stay valid and as many, and it never panics.
pub write_lem :
    (sc : ShardCollection) (ms : List Messages) (pick : ℕ) (p : Bytes)
    → Held sc.shards ms
    → pick < length sc.shards
    → All (λ s. Fits s p) sc.shards
    → p ≢ []
    → (n : ℕ) × (flush : Bool) × (t : ShardCollection) × (ms' : List Messages) × (write sc pick p
        ≡ some (n, flush, pos pick, t))
      × Held t.shards ms'
      × (t.num_shards ≡ sc.num_shards)
      × (length t.shards ≡ length sc.shards)
      × Took pick p n ms ms'
      × All (λ s. Fits s p) t.shards
unfolding write
write_lem sc ms pick [] held lt fits ne = absurd (ne refl)
write_lem sc ms pick (byte ∷ p) held lt fits ne =
    let at = Held-At sc.shards ms pick held lt in
    let small = All-at (λ s. Fits s (byte ∷ p)) sc.shards pick at.shard fits at.is_shard in
    let (n, flush, s, m, e, v, r, cap, stored, f) =
      write_outcome at.shard (byte ∷ p) at.held at.valid small ne at.represents in
    let same = announce-shards (store_shard sc pick s) pick flush in
    (
      n,
      flush,
      announce (store_shard sc pick s) pick flush,
      set ms pick m,
      rw (at.is_shard, e),
      rw same.0 (Held-set sc.shards ms pick s m held v r),
      same.1,
      rw same.0 (length-set sc.shards pick s),
      Took-of pick (byte ∷ p) n ms (active_side at.shard.active) at.is_held stored,
      rw same.0 (
          All-set (λ s. Fits s (byte ∷ p)) sc.shards pick s fits
            (same_capacity at.shard s (byte ∷ p) cap small)),
    )
