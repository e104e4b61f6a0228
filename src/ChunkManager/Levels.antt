-- ===== src/ChunkManager/Levels.antt =====
-- How the levels of a compose shrink: with groups of two at least it ends, with groups of one never.
use logger_double_buffer.Base.{
  ℕ, zero, suc, ◌+◌, ◌*◌, ◌≤◌, ◌≡◌, refl, ap, Bool, true, false, none, some, List, [], ◌∷◌, arith,
  leb, length, drop, length-drop, Bool-cases, not_leb→lt, lt→leb, inl, inr,
}
use logger_double_buffer.ChunkManager.{
  Name, Store, intermediate, split, intermediates, compose_groups, single_compose,
  multi_level_compose, compose, cleaned,
}

pub length-intermediates : (target : Name) (i n : ℕ) → length (intermediates target i n) ≡ n
unfolding intermediates
length-intermediates target i zero = refl
length-intermediates target i (suc n) = ap suc (length-intermediates target (suc i) n)

length-split_le :
    {A : Type 0} (fuel max : ℕ) (xs : List A) → 1 ≤ max → length (split fuel max xs) ≤ length xs
unfolding split
length-split_le zero max xs h = omega arith
length-split_le (suc fuel) max [] h = omega arith
length-split_le (suc fuel) max (x ∷ xs) h =
    omega (arith, length-split_le fuel max (drop max (x ∷ xs)) h, length-drop max (x ∷ xs))

-- Fewer groups than names, where a group takes two.
length-split :
    {A : Type 0} (fuel max : ℕ) (xs : List A)
    → 2 ≤ max
    → 2 * length (split fuel max xs) ≤ length xs + 1
unfolding split
length-split zero max xs h = omega arith
length-split (suc fuel) max [] h = omega arith
length-split (suc fuel) max (x ∷ xs) h =
    let rest = length-split fuel max (drop max (x ∷ xs)) h in
    let few = length-split_le fuel max (drop max (x ∷ xs)) (omega arith) in
    let size = length-drop max (x ∷ xs) in omega arith

-- The groups of a list, and what the loop over them makes.
abbrev pub groups_of : {A : Type 0} → ℕ → List A → List (List A)
groups_of max xs = split (length xs) max xs

module _ {S : Type 0} (store : Store S) where
  abbrev pub made : ℕ → S → Name → List Name → Bool × S
  made max s target names = compose_groups store max s target 0 (groups_of max names)

  module _ (fuel max : ℕ) (s : S) (target : Name) (names : List Name) where
    pub level-failed :
        (made max s target names).0 ≡ true
        → multi_level_compose store (suc fuel) max s target names ≡ some (made max s target names)
    unfolding multi_level_compose
    level-failed e = ground arith

    pub level-last :
        (made max s target names).0 ≡ false
        → leb (length (groups_of max names)) max ≡ true
        → multi_level_compose store (suc fuel) max s target names
          ≡ some (
              cleaned store target (length (groups_of max names)) (
                single_compose store max
                  (made max s target names).1
                  target
                  (intermediates target 0 (length (groups_of max names)))))
    unfolding multi_level_compose
    level-last e last = ground arith

    pub level-next :
        {q : Bool × S}
        → (made max s target names).0 ≡ false
        → leb (length (groups_of max names)) max ≡ false
        → multi_level_compose store fuel max
            (made max s target names).1
            target
            (intermediates target 0 (length (groups_of max names)))
          ≡ some q
        → multi_level_compose store (suc fuel) max s target names
          ≡ some (cleaned store target (length (groups_of max names)) q)
    unfolding multi_level_compose
    level-next e more below = ground arith

    pub level-none :
        (made max s target names).0 ≡ false
        → leb (length (groups_of max names)) max ≡ false
        → multi_level_compose store fuel max
            (made max s target names).1
            target
            (intermediates target 0 (length (groups_of max names)))
          ≡ none
        → multi_level_compose store (suc fuel) max s target names ≡ none
    unfolding multi_level_compose
    level-none e more below = ground arith

  pub levels_end :
      (fuel max : ℕ) (s : S) (target : Name) (names : List Name)
      → 2 ≤ max
      → 1 ≤ fuel
      → length names ≤ fuel
      → (r : Bool × S) × (multi_level_compose store fuel max s target names ≡ some r)
  levels_end zero max s target names h pos enough = absurd (omega arith)
  levels_end (suc fuel) max s target names h pos enough =
      let n = length (groups_of max names) in
      elim (Bool-cases (made max s target names).0) [
        | inl e ↦ (_, level-failed fuel max s target names e)
        | inr e ↦ elim (Bool-cases (leb n max)) [
          | inl last ↦ (_, level-last fuel max s target names e last)
          | inr more ↦
              let big = not_leb→lt n max more in
              let fewer = length-split (length names) max names h in
              let size = length-intermediates target 0 n in
              let (q, below) =
                levels_end fuel max (made max s target names).1 target (intermediates target 0 n) h
                  (omega arith) (omega arith) in
              (_, level-next fuel max s target names e more below)
        ]
      ]

  pub compose_ends :
      (max : ℕ) (s : S) (target : Name) (names : List Name)
      → 2 ≤ max
      → (r : Bool × S) × (compose store max s target names ≡ some r)
  unfolding compose
  compose_ends max s target names h = elim (Bool-cases (leb (length names) max)) [
    | inl e ↦ (single_compose store max s target names, rw e refl)
    | inr e ↦
        let big = not_leb→lt (length names) max e in
        let (r, ran) = levels_end (length names) max s target names h (omega arith) (omega arith) in
        (r, rw e ran)
  ]

  module _
      (succeeds : (s : S) (target : Name) (names : List Name)
        → (store.compose s target names).0 ≡ false) where
    single_made : (s : S) (target o : Name) → (single_compose store 1 s target (o ∷ [])).0 ≡ false
    unfolding single_compose
    single_made s target o = succeeds s target (o ∷ [])

    ones-made :
        (fuel : ℕ) (s : S) (target : Name) (i : ℕ) (names : List Name)
        → (compose_groups store 1 s target i (split fuel 1 names)).0 ≡ false
    unfolding compose_groups split
    ones-made zero s target i names = refl
    ones-made (suc fuel) s target i [] = refl
    ones-made (suc fuel) s target i (o ∷ names) = rw (single_made s (intermediate target i) o) (
        ones-made fuel (single_compose store 1 s (intermediate target i) (o ∷ [])).1 target (suc i)
          names)

    length-ones :
        {A : Type 0} (fuel : ℕ) (xs : List A)
        → length xs ≤ fuel
        → length (split fuel 1 xs) ≡ length xs
    unfolding split
    length-ones zero [] h = refl
    length-ones zero (x ∷ xs) h = absurd (omega arith)
    length-ones (suc fuel) [] h = refl
    length-ones (suc fuel) (x ∷ xs) h = ap suc (length-ones fuel xs (omega arith))

    -- With one object at a time, a limit that the configuration allows, the levels of two chunks or
    -- more never end, if the store never fails: no amount of fuel is enough.
    pub multi_level_compose-diverges :
        (fuel : ℕ) (s : S) (target : Name) (names : List Name)
        → 2 ≤ length names
        → multi_level_compose store fuel 1 s target names ≡ none
    multi_level_compose-diverges zero s target names h = unfold multi_level_compose in refl
    multi_level_compose-diverges (suc fuel) s target names h =
        let n = length (groups_of 1 names) in
        let same = length-ones (length names) names (omega arith) in
        let size = length-intermediates target 0 n in
        level-none fuel 1 s target names (ones-made (length names) s target 0 names)
          (lt→leb _ _ (omega arith))
          (multi_level_compose-diverges fuel (made 1 s target names).1 target
            (intermediates target 0 n) (omega arith))
