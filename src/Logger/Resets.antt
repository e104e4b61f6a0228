-- ===== src/Logger/Resets.antt =====
-- Resetting a list of shards, and the lists that describe a flush.
use logger_double_buffer.Base.{
  ℕ, zero, suc, ◌<◌, ◌≡◌, ◌≢◌, refl, sym, subst, ◌∙◌, ap, false, some, List, [], ◌∷◌, ◌++◌, arith,
  length, get_elem?, set, All, length-set,
}
use logger_double_buffer.Base.Bytes.{Bytes}
use logger_double_buffer.Shard.{Shard, Side, active_side, other, reset_enhanced}
use logger_double_buffer.Shard.Invariant.{IsValid, reset_enhanced-IsValid}
use logger_double_buffer.Shard.Contents.{Messages, messages}
use logger_double_buffer.Shard.Reset.{inactive_side, reset_enhanced-clears}
use logger_double_buffer.ShardCollection.{ShardCollection, store_shard}
use logger_double_buffer.ShardCollection.Writes.{Held, Held-At, Held-set}
use logger_double_buffer.Logger.Flush.{reset_shards}
use logger_double_buffer.Logger.Worker.{in_list}
use logger_double_buffer.Logger.Queue.{Unique}
use logger_double_buffer.Logger.Blocks.{AllCarry, groups}
use logger_double_buffer.Logger.Halves.{Clearable}

pub get-set_other :
    {A : Type 0} (xs : List A) (i j : ℕ) (v : A) → i ≢ j → get_elem? (set xs i v) j ≡ get_elem? xs j
get-set_other [] i j v ne = refl
get-set_other (x ∷ xs) zero zero v ne = absurd (ne refl)
get-set_other (x ∷ xs) zero (suc j) v ne = refl
get-set_other (x ∷ xs) (suc i) zero v ne = refl
get-set_other (x ∷ xs) (suc i) (suc j) v ne = get-set_other xs i j v (λ e. ne (ap suc e))

pub get-set_here :
    {A : Type 0} (xs : List A) (i : ℕ) (v : A) → i < length xs → get_elem? (set xs i v) i ≡ some v
get-set_here [] i v h = absurd (omega arith)
get-set_here (x ∷ xs) zero v h = refl
get-set_here (x ∷ xs) (suc i) v h = get-set_here xs i v (omega arith)

pub in_list-cons :
    (i j : ℕ) (js : List ℕ) → in_list i (j ∷ js) ≡ false → (j ≢ i) × (in_list i js ≡ false)
unfolding in_list
in_list-cons i j js h = (λ e. absurd (ground arith), ground arith)

some_inj : {A : Type 0} {x y : A} → some x ≡ some y → x ≡ y
some_inj e = cc

abbrev pub nothing : Messages
nothing = record { on_a = []; on_b = [] }

none_left :
    (capacity : ℕ) (xs ys : List Bytes)
    → AllCarry capacity (groups xs ++ groups ys) []
    → (xs ≡ []) × (ys ≡ [])
none_left capacity [] [] c = (refl, refl)
none_left capacity [] (y ∷ ys) c = absurd c
none_left capacity (x ∷ xs) ys c = absurd c

pub no_blocks :
    (x : Side) (capacity : ℕ) (m : Messages)
    → AllCarry capacity (groups (messages (other x) m) ++ groups (messages x m)) []
    → m ≡ nothing
no_blocks Side.a capacity m c = let (f, e) = none_left capacity m.on_b m.on_a c in ground arith
no_blocks Side.b capacity m c = let (e, f) = none_left capacity m.on_a m.on_b c in ground arith

-- The blocks written for the listed shards: for each one in turn, those of the messages it holds.
abbrev pub Collected : List Shard → List Messages → List ℕ → List Bytes → Type 0
Collected ss ms [] bs = bs ≡ []
Collected ss ms (i ∷ is) bs =
    (s : Shard) × (m : Messages) × (b1 : List Bytes) × (b2 : List Bytes) × (get_elem? ss i ≡ some s)
    × (get_elem? ms i ≡ some m)
    × (bs ≡ b1 ++ b2)
    × AllCarry s.capacity
        (groups (messages (inactive_side s) m) ++ groups (messages (active_side s.active) m)) b1
    × Collected ss ms is b2

-- The messages with the listed shards emptied.
abbrev pub clear_all : List ℕ → List Messages → List Messages
clear_all [] ms = ms
clear_all (i ∷ is) ms = clear_all is (set ms i nothing)

pub record Clear (ss : List Shard) (i : ℕ) : Type 0 where
  pub shard : Shard
  pub is_shard : get_elem? ss i ≡ some shard
  pub bounded : i < length ss
  pub clear : Clearable shard

Clear-set :
    (ss : List Shard) (i : ℕ) (v : Shard) (is : List ℕ)
    → in_list i is ≡ false
    → All (Clear ss) is
    → All (Clear (set ss i v)) is
Clear-set ss i v [] new h = tt
Clear-set ss i v (j ∷ is) new h =
    let (ne, rest) = in_list-cons i j is new in
    (
      record {
        shard = h.0.shard;
        is_shard = get-set_other ss i j v (λ e. ne (sym e)) ∙ h.0.is_shard;
        bounded = let same = length-set ss i v in let k = h.0.bounded in omega arith;
        clear = h.0.clear;
      },
      Clear-set ss i v is rest h.1,
    )

reset_shards-step :
    (sc : ShardCollection) (i : ℕ) (is : List ℕ) {s : Shard}
    → get_elem? sc.shards i ≡ some s
    → reset_shards sc (i ∷ is) ≡ reset_shards (store_shard sc i (reset_enhanced s)) is
unfolding reset_shards
reset_shards-step sc i is e = rw e refl

pub reset_shards-Held :
    (sc : ShardCollection) (ms : List Messages) (is : List ℕ)
    → Held sc.shards ms
    → Unique is
    → All (Clear sc.shards) is
    → (sc' : ShardCollection) × (reset_shards sc is ≡ some sc') × Held sc'.shards (clear_all is ms)
unfolding reset_shards
reset_shards-Held sc ms [] held u h = (sc, refl, held)
reset_shards-Held sc ms (i ∷ is) held u h =
    let c = h.0 in
    let at = Held-At sc.shards ms i held c.bounded in
    let same : at.shard ≡ c.shard = some_inj (sym at.is_shard ∙ c.is_shard) in
    let valid = subst IsValid same at.valid in
    let held' =
      Held-set sc.shards ms i (reset_enhanced c.shard) nothing held (reset_enhanced-IsValid valid)
        (reset_enhanced-clears c.shard valid c.clear) in
    let (sc', ran, done) =
      reset_shards-Held (store_shard sc i (reset_enhanced c.shard)) (set ms i nothing) is held' u.1
        (Clear-set sc.shards i (reset_enhanced c.shard) is u.0 h.1) in
    (sc', reset_shards-step sc i is c.is_shard ∙ ran, done)
