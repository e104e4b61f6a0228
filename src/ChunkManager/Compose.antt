-- ===== src/ChunkManager/Compose.antt =====
-- What a compose of many chunks leaves in the store: their concatenation.
use logger_double_buffer.Base.{
  ℕ, zero, suc, ◌≤◌, ◌<◌, ◌≡◌, ◌≢◌, ◌⊎◌, refl, sym, ap, subst, ◌∙◌, Bool, true, false, Option, some,
  List, [], ◌∷◌, arith, map, ltb, leb, length, All, Bool-cases, not_leb→lt, inl, inr, Option-cases,
}
use logger_double_buffer.Base.Bytes.{Bytes}
use logger_double_buffer.ChunkManager.{
  Name, Store, intermediate, split, intermediates, compose_groups, single_compose,
  multi_level_compose, compose, cleaned, cleanup_objects,
}
use logger_double_buffer.ChunkManager.Levels.{
  made, groups_of, level-failed, level-last, level-next, level-none, levels_end,
}
use logger_double_buffer.ChunkManager.Groups.{
  concat, Reads, ReadsAll, Later, Outside, concat-split, length-Reads, Reads-split, ReadsAll-same,
  All-map, target-apart, intermediate-apart, Later-Outside, Later-intermediates,
}

-- The documented behaviour of the store, in terms of what is read: a compose that succeeds puts the
-- sources' contents together in their order, whatever the destination was before, and neither a
-- compose nor a delete changes another object.
pub record Laws {S : Type 0} (store : Store S) : Type 0 where
  pub read : S → Name → Option Bytes
  pub composed :
      (s : S) (target : Name) (names : List Name) (vals : List Bytes)
      → (store.compose s target names).0 ≡ false
      → Reads (read s) names vals
      → read (store.compose s target names).1 target ≡ some (concat vals)
  pub compose_elsewhere :
      (s : S) (target : Name) (names : List Name) (nm : Name)
      → nm ≢ target
      → read (store.compose s target names).1 nm ≡ read s nm
  pub delete_elsewhere :
      (s : S) (target nm : Name) → nm ≢ target → read (store.delete s target).1 nm ≡ read s nm

pub or_failed : {A : Type 0} (failed : Bool) → (failed ≡ false → A) → (failed ≡ true) ⊎ A
or_failed true f = inl refl
or_failed false f = inr (f refl)

module _ {S : Type 0} (store : Store S) (laws : Laws store) where
  single-elsewhere :
      (max : ℕ) (s : S) (target : Name) (names : List Name) (nm : Name)
      → nm ≢ target
      → laws.read (single_compose store max s target names).1 nm ≡ laws.read s nm
  unfolding single_compose
  single-elsewhere max s target [] nm ne = refl
  single-elsewhere max s target (o ∷ os) nm ne = elim (Bool-cases (ltb max (length (o ∷ os)))) [
    | inl e ↦ rw e refl
    | inr e ↦ rw e (laws.compose_elsewhere s target (o ∷ os) nm ne)
  ]

  single-Reads :
      (max : ℕ) (s : S) (target : Name) (names : List Name) (vals : List Bytes)
      → (single_compose store max s target names).0 ≡ false
      → Reads (laws.read s) names vals
      → laws.read (single_compose store max s target names).1 target ≡ some (concat vals)
  unfolding single_compose
  single-Reads max s target [] vals ok r = absurd (ground arith)
  single-Reads max s target (o ∷ os) vals ok r = elim (Bool-cases (ltb max (length (o ∷ os)))) [
    | inl e ↦ absurd (ground arith)
    | inr e ↦
        let same : single_compose store max s target (o ∷ os) ≡ store.compose s target (o ∷ os) =
          rw e refl in
        ap (λ q. laws.read q.1 target) same
        ∙ laws.composed s target (o ∷ os) vals (sym (ap (λ q. q.0) same) ∙ ok) r
  ]

  pub cleanup-elsewhere :
      (s : S) (os : List Name) (nm : Name)
      → All (λ o. nm ≢ o) os
      → laws.read (cleanup_objects store s os) nm ≡ laws.read s nm
  unfolding cleanup_objects
  cleanup-elsewhere s [] nm ne = refl
  cleanup-elsewhere s (o ∷ os) nm ne =
      cleanup-elsewhere (store.delete s o).1 os nm ne.1 ∙ laws.delete_elsewhere s o nm ne.0

  none-of :
      (target nm : Name) (i n : ℕ)
      → ((j : ℕ) → nm ≢ intermediate target j)
      → All (λ o. nm ≢ o) (intermediates target i n)
  unfolding intermediates
  none-of target nm i zero ne = tt
  none-of target nm i (suc n) ne = (ne i, none-of target nm (suc i) n ne)

  groups-elsewhere :
      (max : ℕ) (s : S) (target : Name) (i : ℕ) (gs : List (List Name)) (nm : Name)
      → ((j : ℕ) → nm ≢ intermediate target j)
      → laws.read (compose_groups store max s target i gs).1 nm ≡ laws.read s nm
  unfolding compose_groups
  groups-elsewhere max s target i [] nm ne = refl
  groups-elsewhere max s target i (g ∷ gs) nm ne =
      let r = single_compose store max s (intermediate target i) g in
      let one = single-elsewhere max s (intermediate target i) g nm (ne i) in
      elim (Bool-cases r.0) [
        | inl e ↦
            rw e
              (cleanup-elsewhere r.1 (intermediates target 0 i) nm (none-of target nm 0 i ne) ∙ one)
        | inr e ↦ rw e (groups-elsewhere max r.1 target (suc i) gs nm ne ∙ one)
      ]

  groups-keeps :
      (max : ℕ) (s : S) (target : Name) (i : ℕ) (gs : List (List Name)) (j : ℕ)
      → j < i
      → (compose_groups store max s target i gs).0 ≡ false
      → laws.read (compose_groups store max s target i gs).1 (intermediate target j)
        ≡ laws.read s (intermediate target j)
  unfolding compose_groups
  groups-keeps max s target i [] j lt ok = refl
  groups-keeps max s target i (g ∷ gs) j lt ok =
      let r = single_compose store max s (intermediate target i) g in
      let one =
        single-elsewhere max s (intermediate target i) g (intermediate target j)
          (intermediate-apart target j i (omega arith)) in
      elim (Bool-cases r.0) [
        | inl e ↦ absurd (ground arith)
        | inr e ↦
            let same : compose_groups store max s target i (g ∷ gs)
                ≡ compose_groups store max r.1 target (suc i) gs =
              rw e refl in
            ap (λ q. laws.read q.1 (intermediate target j)) same
            ∙ (groups-keeps max r.1 target (suc i) gs j (omega arith)
                  (sym (ap (λ q. q.0) same) ∙ ok)
                ∙ one)
      ]

  groups-Reads :
      (max : ℕ) (s : S) (target : Name) (i : ℕ) (gs : List (List Name)) (vss : List (List Bytes))
      → (compose_groups store max s target i gs).0 ≡ false
      → ReadsAll (laws.read s) gs vss
      → Later target i gs
      → Reads
          (laws.read (compose_groups store max s target i gs).1)
          (intermediates target i (length gs))
          (map concat vss)
  unfolding compose_groups intermediates
  groups-Reads max s target i [] [] ok r later = tt
  groups-Reads max s target i [] (vs ∷ vss) ok r later = absurd r
  groups-Reads max s target i (g ∷ gs) [] ok r later = absurd r
  groups-Reads max s target i (g ∷ gs) (vs ∷ vss) ok r later =
      let q = single_compose store max s (intermediate target i) g in
      elim (Bool-cases q.0) [
        | inl e ↦ absurd (ground arith)
        | inr e ↦
            let same : compose_groups store max s target i (g ∷ gs)
                ≡ compose_groups store max q.1 target (suc i) gs =
              rw e refl in
            let ok' : (compose_groups store max q.1 target (suc i) gs).0 ≡ false =
              sym (ap (λ q. q.0) same) ∙ ok in
            let kept =
              All-map gs
                (λ (os : List Name) (h : All (λ o. o ≢ intermediate target i) os).
                  All-map os (λ o ne. single-elsewhere max s (intermediate target i) g o ne) h)
                later.0 in
            subst
              (λ c.
                Reads (laws.read c.1) (intermediates target i (suc (length gs)))
                  (map concat (vs ∷ vss)))
              (sym same)
              (
                groups-keeps max q.1 target (suc i) gs i (omega arith) ok'
                    ∙ single-Reads max s (intermediate target i) g vs e r.0,
                groups-Reads max q.1 target (suc i) gs vss ok'
                    (ReadsAll-same (laws.read s) (laws.read q.1) gs vss kept r.1) later.1,
              )
      ]

  cleaned-elsewhere :
      (target : Name) (n : ℕ) (r : Bool × S) (nm : Name)
      → ((j : ℕ) → nm ≢ intermediate target j)
      → laws.read (cleaned store target n r).1 nm ≡ laws.read r.1 nm
  cleaned-elsewhere target n r nm ne =
      cleanup-elsewhere r.1 (intermediates target 0 n) nm (none-of target nm 0 n ne)

  same_some : {q r : Bool × S} {o : Option (Bool × S)} → o ≡ some q → o ≡ some r → q ≡ r
  same_some e f = cc

  no-fuel :
      (max : ℕ) (s : S) (target : Name) (names : List Name) {q : Bool × S}
      → multi_level_compose store 0 max s target names ≢ some q
  unfolding multi_level_compose
  no-fuel max s target names e = cc

  levels-elsewhere :
      (fuel max : ℕ) (s : S) (target : Name) (names : List Name) (q : Bool × S) (nm : Name)
      → multi_level_compose store fuel max s target names ≡ some q
      → nm ≢ target
      → ((j : ℕ) → nm ≢ intermediate target j)
      → laws.read q.1 nm ≡ laws.read s nm
  levels-elsewhere zero max s target names q nm ran ne out = absurd (no-fuel max s target names ran)
  levels-elsewhere (suc fuel) max s target names q nm ran ne out =
      let r = made store max s target names in
      let n = length (groups_of max names) in
      let below = groups-elsewhere max s target 0 (groups_of max names) nm out in
      elim (Bool-cases r.0) [
        | inl e ↦
            ap (λ c. laws.read c.1 nm)
              (same_some ran (level-failed store fuel max s target names e))
            ∙ below
        | inr e ↦ elim (Bool-cases (leb n max)) [
          | inl last ↦
              let c = single_compose store max r.1 target (intermediates target 0 n) in
              ap (λ c. laws.read c.1 nm)
                (same_some ran (level-last store fuel max s target names e last))
              ∙ (cleaned-elsewhere target n c nm out
                  ∙ (single-elsewhere max r.1 target (intermediates target 0 n) nm ne ∙ below))
          | inr more ↦
              elim (Option-cases
                (multi_level_compose store fuel max r.1 target (intermediates target 0 n))) [
                  | inl out_of ↦
                      let stuck = level-none store fuel max s target names e more out_of in
                      absurd (cc)
                  | inr (c, ran') ↦
                      ap (λ c. laws.read c.1 nm)
                        (same_some ran (level-next store fuel max s target names e more ran'))
                      ∙ (cleaned-elsewhere target n c nm out
                          ∙ (levels-elsewhere fuel max r.1 target (intermediates target 0 n) c nm
                                ran' ne out
                              ∙ below))
                ]
        ]
      ]

  levels-Reads :
      (fuel max : ℕ) (s : S) (target : Name) (names : List Name) (vals : List Bytes) (q : Bool × S)
      → 1 ≤ max
      → multi_level_compose store fuel max s target names ≡ some q
      → q.0 ≡ false
      → Reads (laws.read s) names vals
      → Later target 0 (groups_of max names)
      → laws.read q.1 target ≡ some (concat vals)
  levels-Reads zero max s target names vals q pos ran ok reads later =
      absurd (no-fuel max s target names ran)
  levels-Reads (suc fuel) max s target names vals q pos ran ok reads later =
      let r = made store max s target names in
      let n = length (groups_of max names) in
      let size = length-Reads (laws.read s) names vals reads in
      let merged = map concat (split (length names) max vals) in
      let whole = concat-split (length names) max vals pos (omega arith) in
      elim (Bool-cases r.0) [
        | inl e ↦
            let bad =
              ap (λ c. c.0) (same_some ran (level-failed store fuel max s target names e)) in
            absurd (cc)
        | inr e ↦
            let below =
              groups-Reads max s target 0 (groups_of max names) (split (length names) max vals) e
                (Reads-split (laws.read s) (length names) max names vals reads) later in
            elim (Bool-cases (leb n max)) [
              | inl last ↦
                  let c = single_compose store max r.1 target (intermediates target 0 n) in
                  let same = same_some ran (level-last store fuel max s target names e last) in
                  ap (λ c. laws.read c.1 target) same
                  ∙ (cleaned-elsewhere target n c target (target-apart target)
                      ∙ (single-Reads max r.1 target (intermediates target 0 n) merged
                            (sym (ap (λ c. c.0) same) ∙ ok) below
                          ∙ ap some whole))
              | inr more ↦
                  elim (Option-cases
                    (multi_level_compose store fuel max r.1 target (intermediates target 0 n))) [
                      | inl out_of ↦
                          let stuck = level-none store fuel max s target names e more out_of in
                          absurd (cc)
                      | inr (c, ran') ↦
                          let same =
                            same_some ran (level-next store fuel max s target names e more ran') in
                          let next =
                            Later-intermediates target 0 (length (intermediates target 0 n)) max 0 n
                              pos (omega arith) in
                          ap (λ c. laws.read c.1 target) same
                          ∙ (cleaned-elsewhere target n c target (target-apart target)
                              ∙ (levels-Reads fuel max r.1 target (intermediates target 0 n) merged
                                    c pos ran' (sym (ap (λ c. c.0) same) ∙ ok) below next
                                  ∙ ap some whole))
                    ]
            ]
      ]

  -- Over a store that keeps the laws, and chunks that can be read and are none of the target's
  -- intermediate objects: Compose, where it may combine two objects at once, always ends; where
  -- it succeeds, the target holds the contents of the chunks put together in their order, however
  -- many levels it took; and whether or not it succeeds, an object that is neither the target nor
  -- one of its intermediate objects stays as it was.
  pub compose-concat :
      (max : ℕ) (s : S) (target : Name) (names : List Name) (vals : List Bytes) (nm : Name)
      → 2 ≤ max
      → Reads (laws.read s) names vals
      → Outside target names
      → nm ≢ target
      → ((j : ℕ) → nm ≢ intermediate target j)
      → (failed : Bool) × (s' : S) × (compose store max s target names ≡ some (failed, s'))
        × ((failed ≡ true) ⊎ (laws.read s' target ≡ some (concat vals)))
        × (laws.read s' nm ≡ laws.read s nm)
  unfolding compose
  compose-concat max s target names vals nm h reads outside ne out =
      elim (Bool-cases (leb (length names) max)) [
        | inl e ↦
            let r = single_compose store max s target names in
            (
              r.0,
              r.1,
              rw e refl,
              or_failed r.0 (λ ok. single-Reads max s target names vals ok reads),
              single-elsewhere max s target names nm ne,
            )
        | inr e ↦
            let big = not_leb→lt (length names) max e in
            let (r, ran) =
              levels_end store (length names) max s target names h (omega arith) (omega arith) in
            (
              r.0,
              r.1,
              rw e ran,
              or_failed r.0 (λ ok.
                  levels-Reads (length names) max s target names vals r (omega arith) ran ok reads
                    (Later-Outside target 0 (length names) max names outside)),
              levels-elsewhere (length names) max s target names r nm ran ne out,
            )
      ]
