-- ===== src/Uploader/Parallel.antt =====
-- What an upload leaves in the store.
use logger_double_buffer.Base.{
  ℕ, zero, suc, ◌≤◌, ◌<◌, ◌≡◌, ◌≢◌, ◌⊎◌, refl, sym, ap, ◌∙◌, Bool, true, false, some, List, [], ◌∷◌,
  ◌++◌, arith, ◌==◌, length, take, drop, All, length-drop, take-append-drop, Bool-cases, inl, inr,
  Option-cases,
}
use logger_double_buffer.Base.Bytes.{Bytes}
use logger_double_buffer.ChunkManager.{Name, object, chunk, intermediate, split}
use logger_double_buffer.ChunkManager.Groups.{concat, Reads, Outside}
use logger_double_buffer.ChunkManager.Compose
use logger_double_buffer.ChunkManager.Compose.{compose-concat, cleanup-elsewhere, or_failed}
use logger_double_buffer.Uploader.{
  Cloud, upload_chunk, upload_chunks, upload_parallel, chunk_names, verify_size,
  cleanup_temp_chunks,
}

-- The documented behaviour of the store: that of composes and deletes, and that an object that was
-- written holds what was written, and no other object changes.
pub record Laws {S : Type 0} (cloud : Cloud S) : Type 0 where
  pub store : Compose.Laws (cloud.store)
  pub written :
      (s : S) (name : Name) (data' : Bytes)
      → (cloud.put s name data').0 ≡ false
      → store.read (cloud.put s name data').1 name ≡ some data'
  pub put_elsewhere :
      (s : S) (name : Name) (data' : Bytes) (nm : Name)
      → nm ≢ name
      → store.read (cloud.put s name data').1 nm ≡ store.read s nm

concat-chunks :
    (fuel size : ℕ) (buf : Bytes)
    → 1 ≤ size
    → length buf ≤ fuel
    → concat (split fuel size buf) ≡ buf
unfolding split
concat-chunks zero size [] h enough = refl
concat-chunks zero size (b ∷ buf) h enough = absurd (omega arith)
concat-chunks (suc fuel) size [] h enough = refl
concat-chunks (suc fuel) size (b ∷ buf) h enough =
    ap (λ w. take size (b ∷ buf) ++ w)
      (concat-chunks fuel size (drop size (b ∷ buf)) h (omega (arith, length-drop size (b ∷ buf))))
    ∙ take-append-drop size (b ∷ buf)

chunk_number : Name → ℕ
chunk_number (object x) = 0
chunk_number (chunk x i) = i
chunk_number (intermediate t i) = 0

is_object : Name → Bool
is_object (object x) = true
is_object (chunk x i) = false
is_object (intermediate t i) = false

is_chunk : Name → Bool
is_chunk (object x) = false
is_chunk (chunk x i) = true
is_chunk (intermediate t i) = false

chunk-apart : (temp : Bytes) (i j : ℕ) → i < j → chunk temp i ≢ chunk temp j
unfolding chunk_number
chunk-apart temp i j h e = let d : i ≡ j = ap chunk_number e in absurd (omega arith)

chunk-intermediate : (temp : Bytes) (i : ℕ) (t : Name) (j : ℕ) → chunk temp i ≢ intermediate t j
unfolding is_chunk
chunk-intermediate temp i t j e = let d : true ≡ false = ap is_chunk e in cc

object-chunk : (name temp : Bytes) (i : ℕ) → object name ≢ chunk temp i
unfolding is_object
object-chunk name temp i e = let d : true ≡ false = ap is_object e in cc

chunks-Outside : (temp : Bytes) (i n : ℕ) (target : Name) → Outside target (chunk_names temp i n)
unfolding chunk_names
chunks-Outside temp i zero target = tt
chunks-Outside temp i (suc n) target =
    (chunk-intermediate temp i target, chunks-Outside temp (suc i) n target)

object-apart : (name temp : Bytes) (i n : ℕ) → All (λ o. object name ≢ o) (chunk_names temp i n)
unfolding chunk_names
object-apart name temp i zero = tt
object-apart name temp i (suc n) = (object-chunk name temp i, object-apart name temp (suc i) n)

succeeded : {A : Type 0} {failed : Bool} → failed ≡ false → (failed ≡ true) ⊎ A → A
succeeded good (inl bad) = absurd (cc)
succeeded good (inr a) = a

module _ {S : Type 0} (cloud : Cloud S) (laws : Laws cloud) where
  one-written :
      (s : S) (name : Name) (data' : Bytes)
      → (upload_chunk cloud s name data').0 ≡ false
      → (laws.store).read (upload_chunk cloud s name data').1 name ≡ some data'
  unfolding upload_chunk
  one-written s name data' ok = elim (Bool-cases (cloud.put s name data').0) [
    | inl e ↦ absurd (ground arith)
    | inr e ↦ rw e (laws.written s name data' e)
  ]

  one-elsewhere :
      (s : S) (name : Name) (data' : Bytes) (nm : Name)
      → nm ≢ name
      → (laws.store).read (upload_chunk cloud s name data').1 nm ≡ (laws.store).read s nm
  unfolding upload_chunk
  one-elsewhere s name data' nm ne = elim (Bool-cases (cloud.put s name data').0) [
    | inl e ↦ rw e (laws.put_elsewhere s name data' nm ne)
    | inr e ↦ rw e (laws.put_elsewhere s name data' nm ne)
  ]

  earlier-kept :
      (s : S) (temp : Bytes) (i : ℕ) (cs : List Bytes) (j : ℕ)
      → j < i
      → (laws.store).read (upload_chunks cloud s temp i cs).1 (chunk temp j)
        ≡ (laws.store).read s (chunk temp j)
  unfolding upload_chunks
  earlier-kept s temp i [] j h = refl
  earlier-kept s temp i (c ∷ cs) j h =
      earlier-kept (upload_chunk cloud s (chunk temp i) c).1 temp (suc i) cs j (omega arith)
      ∙ one-elsewhere s (chunk temp i) c (chunk temp j) (chunk-apart temp j i h)

  chunks-written :
      (s : S) (temp : Bytes) (i : ℕ) (cs : List Bytes)
      → (upload_chunks cloud s temp i cs).0 ≡ false
      → Reads
          ((laws.store).read (upload_chunks cloud s temp i cs).1)
          (chunk_names temp i (length cs))
          cs
  unfolding upload_chunks chunk_names
  chunks-written s temp i [] ok = tt
  chunks-written s temp i (c ∷ cs) ok =
      let r = upload_chunk cloud s (chunk temp i) c in
      (
        earlier-kept r.1 temp (suc i) cs i (omega arith)
            ∙ one-written s (chunk temp i) c (ground arith),
        chunks-written r.1 temp (suc i) cs (ground arith),
      )

  verified :
      (s : S) (name temp : Bytes) (n size : ℕ)
      → (verify_size cloud s (object name) temp n size).0 ≡ false
      → (laws.store).read (verify_size cloud s (object name) temp n size).1 (object name)
        ≡ (laws.store).read s (object name)
  unfolding verify_size
  verified s name temp n size ok =
      let kept =
        cleanup-elsewhere (cloud.store) laws.store s (chunk_names temp 0 n) (object name)
          (object-apart name temp 0 n) in
      elim (Option-cases (cloud.attrs s (object name))) [
        | inl e ↦ absurd (ground arith)
        | inr (actual, e) ↦ elim (Bool-cases (actual == size)) [
          | inl same ↦
              let shape : verify_size cloud s (object name) temp n size
                  ≡ (false, cleanup_temp_chunks cloud s temp n) =
                ground arith in
              ap (λ q. (laws.store).read q.1 (object name)) shape ∙ kept
          | inr differs ↦ absurd (ground arith)
        ]
      ]

  -- Over a store that keeps the laws, uploadParallel always ends, where chunks hold a byte at
  -- least and two objects can be composed at once; and where it succeeds, the object in the store
  -- holds exactly the bytes of the file.
  pub upload_parallel-uploads :
      (max : ℕ) (s : S) (name suffix buf : Bytes) (size : ℕ)
      → 2 ≤ max
      → 1 ≤ size
      → (failed : Bool) × (s' : S) × (upload_parallel cloud max s name suffix buf size
          ≡ some (failed, s'))
        × ((failed ≡ true) ⊎ ((laws.store).read s' (object name) ≡ some buf))
  unfolding upload_parallel
  upload_parallel-uploads max s name suffix buf size h pos =
      let chunks = split (length buf) size buf in
      let n = length chunks in
      let r = upload_chunks cloud s (name ++ suffix) 0 chunks in
      elim (Bool-cases r.0) [
        | inl e ↦ (true, cleanup_temp_chunks cloud r.1 (name ++ suffix) n, rw e refl, inl refl)
        | inr e ↦
            let read = chunks-written s (name ++ suffix) 0 chunks e in
            let (failed, s', ran, concats, kept) =
              compose-concat (cloud.store) laws.store max r.1 (object name)
                (chunk_names (name ++ suffix) 0 n) chunks (chunk [] 0) h read
                (chunks-Outside (name ++ suffix) 0 n (object name))
                (λ q. object-chunk name [] 0 (sym q)) (chunk-intermediate [] 0 (object name)) in
            elim (Bool-cases failed) [
              | inl bad ↦ (
                true,
                cleanup_temp_chunks cloud s' (name ++ suffix) n,
                rw (e, ran, bad) refl,
                inl refl,
              )
              | inr good ↦
                  let v = verify_size cloud s' (object name) (name ++ suffix) n (length buf) in
                  (
                    v.0,
                    v.1,
                    rw (e, ran, good) refl,
                    or_failed v.0 (λ ok.
                        verified s' name (name ++ suffix) n (length buf) ok
                        ∙ (succeeded good concats
                            ∙ ap some (concat-chunks (length buf) size buf pos (omega arith)))),
                  )
            ]
      ]
