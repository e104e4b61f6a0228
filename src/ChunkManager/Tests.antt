-- ===== src/ChunkManager/Tests.antt =====
-- A store that keeps the law: its state is the contents of every object.
use logger_double_buffer.Base.{
  ℕ, suc, ◌≡◌, ◌≢◌, ◌⊎◌, inl, inr, refl, ap, Bool, true, false, ◌&&◌, Option, none, some, List, [],
  ◌∷◌, ◌++◌, arith, ◌==◌, if◌then◌else◌, Bool-cases,
}
use logger_double_buffer.Base.Bytes.{Bytes}
use logger_double_buffer.LoggerManager.{same_bytes}
use logger_double_buffer.LoggerManager.Registry.{same_bytes_refl, same_bytes→eq}
use logger_double_buffer.ChunkManager.{
  Name, Store, object, chunk, intermediate, compose, multi_level_compose,
}
use logger_double_buffer.ChunkManager.Groups.{concat, Reads, Outside}
use logger_double_buffer.ChunkManager.Compose.{Laws, compose-concat}
use logger_double_buffer.ChunkManager.Levels.{multi_level_compose-diverges}

same_name : Name → Name → Bool
same_name (object x) (object y) = same_bytes x y
same_name (object x) _ = false
same_name (chunk x i) (chunk y j) = same_bytes x y && i == j
same_name (chunk x i) _ = false
same_name (intermediate x i) (intermediate y j) = same_name x y && i == j
same_name (intermediate x i) _ = false

same_name_refl : (n : Name) → same_name n n ≡ true
unfolding same_name
same_name_refl (object x) = same_bytes_refl x
same_name_refl (chunk x i) = ground (arith, same_bytes_refl x)
same_name_refl (intermediate x i) = ground (arith, same_name_refl x)

both_true : (a b : Bool) → a && b ≡ true → (a ≡ true) × (b ≡ true)
both_true true true h = (refl, refl)
both_true true false h = absurd (cc)
both_true false b h = absurd (cc)

same_name→eq : (n m : Name) → same_name n m ≡ true → n ≡ m
unfolding same_name
same_name→eq (object x) (object y) h = ap object (same_bytes→eq x y h)
same_name→eq (object x) (chunk y j) h = cc
same_name→eq (object x) (intermediate y j) h = cc
same_name→eq (chunk x i) (chunk y j) h =
    let (e, f) = both_true (same_bytes x y) (i == j) h in
    let f' : i ≡ j = ground arith in rw (same_bytes→eq x y e, f')
same_name→eq (chunk x i) (object y) h = cc
same_name→eq (chunk x i) (intermediate y j) h = cc
same_name→eq (intermediate x i) (intermediate y j) h =
    let (e, f) = both_true (same_name x y) (i == j) h in
    let f' : i ≡ j = ground arith in rw (same_name→eq x y e, f')
same_name→eq (intermediate x i) (object y) h = cc
same_name→eq (intermediate x i) (chunk y j) h = cc

other_name : (n m : Name) → n ≢ m → same_name n m ≡ false
other_name n m ne = elim (Bool-cases (same_name n m)) [
  | inl e ↦ absurd (ne (same_name→eq n m e))
  | inr e ↦ e
]

abbrev pub State : Type 0
State = Name → Option Bytes

pub update : State → Name → Option Bytes → State
update s target v nm = if same_name nm target then v else s nm

pub update-at : (s : State) (target : Name) (v : Option Bytes) → update s target v target ≡ v
unfolding update
update-at s target v = rw (same_name_refl target) refl

pub update-elsewhere :
    (s : State) (target : Name) (v : Option Bytes) (nm : Name)
    → nm ≢ target
    → update s target v nm ≡ s nm
unfolding update
update-elsewhere s target v nm ne = rw (other_name nm target ne) refl

pub gather : State → List Name → Option Bytes
gather s [] = some []
gather s (o ∷ os) = elim (s o) [
  | none ↦ none
  | some v ↦ elim (gather s os) [ none ↦ none | some w ↦ some (v ++ w) ]
]

pub gather-Reads :
    (s : State) (os : List Name) (vs : List Bytes) → Reads s os vs → gather s os ≡ some (concat vs)
unfolding gather
gather-Reads s [] [] r = refl
gather-Reads s [] (v ∷ vs) r = absurd r
gather-Reads s (o ∷ os) [] r = absurd r
gather-Reads s (o ∷ os) (v ∷ vs) r =
    let rest = gather-Reads s os vs r.1 in let here = r.0 in ground arith

pub replaced : State → Name → Option Bytes → Bool × State
replaced s target none = (true, s)
replaced s target (some v) = (false, update s target (some v))

abbrev pub memory : Store State
memory = record {
  compose = λ s target names. replaced s target (gather s names);
  delete = λ s target. (false, update s target none);
}

pub replaced-elsewhere :
    (s : State) (target : Name) (o : Option Bytes) (nm : Name)
    → nm ≢ target
    → (replaced s target o).1 nm ≡ s nm
unfolding replaced
replaced-elsewhere s target none nm ne = refl
replaced-elsewhere s target (some v) nm ne = update-elsewhere s target (some v) nm ne

pub replaced-at :
    (s : State) (target : Name) {o : Option Bytes} (v : Bytes)
    → o ≡ some v
    → (replaced s target o).1 target ≡ some v
unfolding replaced
replaced-at s target v e = rw e (update-at s target (some v))

unfoldable pub memory-Laws : Laws memory
memory-Laws = record {
  read = λ s nm. s nm;
  composed =
      λ s target names vals ok r. replaced-at s target (concat vals) (gather-Reads s names vals r);
  compose_elsewhere = λ s target names nm ne. replaced-elsewhere s target (gather s names) nm ne;
  delete_elsewhere = λ s target nm ne. update-elsewhere s target none nm ne;
}

-- Three chunks of two bytes, composed two at a time.
abbrev stored : State
stored (object x) = none
stored (chunk x i) = some (i ∷ i ∷ [])
stored (intermediate x i) = none

abbrev temp : Bytes
temp = 116 ∷ []

abbrev three : List Name
three = chunk temp 1 ∷ chunk temp 2 ∷ chunk temp 3 ∷ []

abbrev contents : List Bytes
contents = (1 ∷ 1 ∷ []) ∷ (2 ∷ 2 ∷ []) ∷ (3 ∷ 3 ∷ []) ∷ []

abbrev target : Name
target = object (102 ∷ [])

chunk_kept : (i : ℕ) (n : Name) (j : ℕ) → chunk temp i ≢ intermediate n j
chunk_kept i n j e = cc

three-Outside : Outside target three
three-Outside = (chunk_kept 1 target, (chunk_kept 2 target, (chunk_kept 3 target, tt)))

chunk_object : chunk temp 2 ≢ target
chunk_object e = cc

compose-concat_example :
    (failed : Bool) × (s' : State) × (compose memory 2 stored target three ≡ some (failed, s'))
    × ((failed ≡ true) ⊎ (s' target ≡ some (concat contents)))
    × (s' (chunk temp 2) ≡ some (2 ∷ 2 ∷ []))
unfolding memory-Laws
compose-concat_example =
    compose-concat memory memory-Laws 2 stored target three contents (chunk temp 2) (omega arith)
      (refl, (refl, (refl, tt))) three-Outside chunk_object (chunk_kept 2 target)

-- A store that only says that it succeeded.
abbrev yes_store : Store ℕ
yes_store = record { compose = λ s target names. (false, suc s); delete = λ s target. (false, s) }

multi_level_compose-diverges_example : multi_level_compose yes_store 1000 1 0 target three ≡ none
multi_level_compose-diverges_example =
    multi_level_compose-diverges yes_store (λ s t names. refl) 1000 0 target three (omega arith)
