-- ===== src/ChunkManager.antt =====
-- asyncloguploader/chunk_manager.go: composing the chunks of a file into one object of the cloud
-- store, by groups of at most `max` and level by level. The store's client is an interface over its
-- state. An object's name is kept in the form in which the code makes it, so different forms are
-- different names. Warnings that are only logged are left out.
pub mod Compose
pub mod Levels
pub mod Groups
pub mod Tests
use logger_double_buffer.Base.{
  ℕ, zero, suc, ◌≡◌, Bool, true, false, Option, none, some, List, [], ◌∷◌, map, ltb, leb,
  if◌then◌else◌, length, take, drop,
}
use logger_double_buffer.Base.Int.{ℤ, not_positive, pos_part}
use logger_double_buffer.Base.Bytes.{Bytes}

-- The final object, `<prefix>.chunk.<i>` and `<object>.intermediate.<i>`.
pub data Name : Type 0 where
  object : Bytes → Name
  chunk : Bytes → ℕ → Name
  intermediate : Name → ℕ → Name

-- The client: composing objects into one, and deleting one; true is an error.
pub record Store (S : Type 0) : Type 0 where
  pub compose : S → Name → List Name → Bool × S
  pub delete : S → Name → Bool × S

-- NewChunkManager
unfoldable pub new_chunk_manager : ℤ → ℕ
new_chunk_manager max = if not_positive max then 32 else pos_part max

-- chunkObjects[i:end] of the loop, from a list that is not longer than the fuel.
unfoldable pub split : {A : Type 0} → ℕ → ℕ → List A → List (List A)
split zero max xs = []
split (suc fuel) max [] = []
split (suc fuel) max (x ∷ xs) = take max (x ∷ xs) ∷ split fuel max (drop max (x ∷ xs))

-- The names of `n` intermediate objects, from the `i`-th.
pub intermediates : Name → ℕ → ℕ → List Name
intermediates target i zero = []
intermediates target i (suc n) = intermediate target i ∷ intermediates target (suc i) n

module _ {S : Type 0} (store : Store S) where
  -- cleanupObjects: an error is only logged.
  pub cleanup_objects : S → List Name → S
  cleanup_objects s [] = s
  cleanup_objects s (o ∷ os) = cleanup_objects (store.delete s o).1 os

  -- singleCompose; true is an error.
  unfoldable pub single_compose : ℕ → S → Name → List Name → Bool × S
  single_compose max s target [] = (true, s)
  single_compose max s target (o ∷ os) =
      if ltb max (length (o ∷ os)) then (true, s) else store.compose s target (o ∷ os)

  -- The loop over the groups, with the number of the next one: where one fails, those made so far
  -- are cleaned up.
  pub compose_groups : ℕ → S → Name → ℕ → List (List Name) → Bool × S
  unfolding single_compose cleanup_objects intermediates
  compose_groups max s target i [] = (false, s)
  compose_groups max s target i (g ∷ gs) =
      let r = single_compose max s (intermediate target i) g in
      if r.0
      then (true, cleanup_objects r.1 (intermediates target 0 i))
      else compose_groups max r.1 target (suc i) gs

  -- The intermediate objects are deleted after the compose of the level above, whatever came of it.
  abbrev pub cleaned : Name → ℕ → Bool × S → Bool × S
  cleaned target n r = (r.0, cleanup_objects r.1 (intermediates target 0 n))

  -- multiLevelCompose, on fuel; `none` is fuel that ran out.
  unfoldable pub multi_level_compose : ℕ → ℕ → S → Name → List Name → Option (Bool × S)
  unfolding compose_groups cleanup_objects split intermediates
  multi_level_compose zero max s target names = none
  multi_level_compose (suc fuel) max s target names =
      let groups = split (length names) max names in
      let n = length groups in
      let r = compose_groups max s target 0 groups in
      elim r.0 [
        | true ↦ some r
        | false ↦ elim (leb n max) [
          | true ↦
              some (cleaned target n (single_compose max r.1 target (intermediates target 0 n)))
          | false ↦ elim (multi_level_compose fuel max r.1 target (intermediates target 0 n)) [
            | none ↦ none
            | some q ↦ some (cleaned target n q)
          ]
        ]
      ]

  -- Compose, with fuel for as many levels as there are chunks.
  unfoldable pub compose : ℕ → S → Name → List Name → Option (Bool × S)
  unfolding multi_level_compose
  compose max s target names =
      if leb (length names) max
      then some (single_compose max s target names)
      else multi_level_compose (length names) max s target names
