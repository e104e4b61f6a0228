-- ===== src/LoggerManager/Registry.antt =====
-- The map of event loggers, from name to logger.
use logger_double_buffer.Base.{
  ◌≡◌, ◌≢◌, inl, inr, refl, sym, ap, ◌∙◌, true, false, none, some, List, [], ◌∷◌, arith, Bool-cases,
  Option-cases,
}
use logger_double_buffer.Base.Bytes.{Bytes}
use logger_double_buffer.LoggerManager.{
  same_bytes, Loggers, load, store, delete, has_event_logger, get_or_create_key,
  get_or_create_logger, load_or_store, close_event_logger, sanitize_event_name,
  log_bytes_with_event,
}

pub same_bytes_refl : (k : Bytes) → same_bytes k k ≡ true
unfolding same_bytes
same_bytes_refl [] = refl
same_bytes_refl (a ∷ k) = ground (arith, same_bytes_refl k)

pub same_bytes→eq : (j k : Bytes) → same_bytes j k ≡ true → j ≡ k
unfolding same_bytes
same_bytes→eq [] [] h = refl
same_bytes→eq [] (b ∷ k) h = absurd (ground arith)
same_bytes→eq (a ∷ j) [] h = absurd (ground arith)
same_bytes→eq (a ∷ j) (b ∷ k) h =
    let e : a ≡ b = ground arith in
    let e' : same_bytes j k ≡ true = ground arith in rw (e, same_bytes→eq j k e')

-- The tests of two different keys against a third are not both true.
apart : (i j k : Bytes) → j ≢ k → same_bytes i j ≡ true → same_bytes i k ≡ false
apart i j k ne h = elim (Bool-cases (same_bytes i k)) [
  | inl e ↦ absurd (ne (ap (λ x. x) (rw (← same_bytes→eq i j h) (same_bytes→eq i k e))))
  | inr e ↦ e
]

module _ {L : Type 0} where
  load-store : (m : List (Bytes × L)) (k : Bytes) (l : L) → load (store m k l) k ≡ some l
  unfolding load store
  load-store [] k l = rw (same_bytes_refl k)
  load-store ((j, l') ∷ m) k l = ground (arith, load-store m k l)

  load-store_other :
      (m : List (Bytes × L)) (j k : Bytes) (l : L) → j ≢ k → load (store m j l) k ≡ load m k
  unfolding load store
  load-store_other [] j k l ne = ground (arith, apart j j k ne (same_bytes_refl j))
  load-store_other ((i, l') ∷ m) j k l ne =
      ground (arith, load-store_other m j k l ne, apart i j k ne)

  load-delete : (m : List (Bytes × L)) (k : Bytes) → load (delete m k) k ≡ none
  unfolding load delete
  load-delete [] k = refl
  load-delete ((j, l) ∷ m) k = ground (arith, load-delete m k)

  load-delete_other : (m : List (Bytes × L)) (j k : Bytes) → j ≢ k → load (delete m j) k ≡ load m k
  unfolding load delete
  load-delete_other [] j k ne = refl
  load-delete_other ((i, l) ∷ m) j k ne = ground (arith, load-delete_other m j k ne, apart i j k ne)

  module _ {W : Type 0} (loggers : Loggers W L) where
    load_or_store-first :
        (m : List (Bytes × L)) (key : Bytes) (l : L)
        → load m key ≡ none
        → load_or_store loggers m key l ≡ (l, none, store m key l)
    unfolding load_or_store
    load_or_store-first m key l e = ground arith

    load_or_store-late :
        (m : List (Bytes × L)) (key : Bytes) (l actual : L)
        → load m key ≡ some actual
        → load_or_store loggers m key l ≡ (actual, some (loggers.close l).1, m)
    unfolding load_or_store
    load_or_store-late m key l actual e = ground arith

    -- Two calls for one event that both found no logger in the map and each made one, which they
    -- then bring to the map one after the other: both are given the logger of the first, the logger
    -- of the second is closed, the map holds the first's, and every other event keeps its own.
    pub load_or_store-race :
        (m : List (Bytes × L)) (key k : Bytes) (l1 l2 : L)
        → load m key ≡ none
        → key ≢ k
        → let (got1, closed1, m1) = load_or_store loggers m key l1 in
          let (got2, closed2, m2) = load_or_store loggers m1 key l2 in
          (got1 ≡ l1)
          × (got2 ≡ l1)
          × (closed1 ≡ none)
          × (closed2 ≡ some (loggers.close l2).1)
          × (load m2 key ≡ some l1)
          × (load m2 k ≡ load m k)
    load_or_store-race m key k l1 l2 e ne =
        let stored = load-store m key l1 in
        rw (load_or_store-first m key l1 e, load_or_store-late (store m key l1) key l2 l1 stored)
          (refl, refl, refl, refl, stored, load-store_other m key k l1 ne)

    -- The logger that is given out is the one in the map, and no other name has changed.
    get_or_create_key-found :
        (w w' : W) (m m' : List (Bytes × L)) (key : Bytes) (l : L)
        → get_or_create_key loggers w m key ≡ (some (l, m'), w')
        → (load m' key ≡ some l) × ((k : Bytes) → key ≢ k → load m' k ≡ load m k)
    unfolding get_or_create_key
    get_or_create_key-found w w' m m' key l made = elim (Option-cases (load m key)) [
      | inr (l', e) ↦
          let same : m' ≡ m = ground arith in
          let same_l : l' ≡ l = ground arith in (rw (same, e, same_l), λ k ne. rw same)
      | inl e ↦ elim (Option-cases (loggers.new_logger w key).0) [
        | inl failed ↦ absurd (ground arith)
        | inr (l', new) ↦
            let kept = load_or_store-first m key l' e in
            let same : m' ≡ store m key l = ground arith in
            (rw (same, load-store m key l), λ k ne. rw (same, load-store_other m key k l ne))
      ]
    ]

    get_or_create-eq :
        (w : W) (m : List (Bytes × L)) (name key : Bytes)
        → sanitize_event_name name ≡ some key
        → get_or_create_logger loggers w m name ≡ get_or_create_key loggers w m key
    unfolding get_or_create_logger
    get_or_create-eq w m name key e = ground arith

    get_or_create_key-known :
        (w : W) (m : List (Bytes × L)) (key : Bytes) (l : L)
        → load m key ≡ some l
        → get_or_create_key loggers w m key ≡ (some (l, m), w)
    unfolding get_or_create_key
    get_or_create_key-known w m key l e = ground arith

    -- Names with one sanitized form have one logger: once a call for the first has returned a
    -- logger, a call for the second returns the same one, and changes neither the map nor the world,
    -- so it makes none, though another call of NewLogger in that world might give another logger.
    pub get_or_create-shared :
        (w w' : W) (m m' : List (Bytes × L)) (n1 n2 key : Bytes) (l : L)
        → sanitize_event_name n1 ≡ some key
        → sanitize_event_name n2 ≡ some key
        → get_or_create_logger loggers w m n1 ≡ (some (l, m'), w')
        → get_or_create_logger loggers w' m' n2 ≡ (some (l, m'), w')
    get_or_create-shared w w' m m' n1 n2 key l e1 e2 made =
        let found =
          get_or_create_key-found w w' m m' key l (sym (get_or_create-eq w m n1 key e1) ∙ made) in
        get_or_create-eq w' m' n2 key e2 ∙ get_or_create_key-known w' m' key l found.0

    log_bytes_with_event-eq :
        (w w' : W) (m m' : List (Bytes × L)) (name data' key : Bytes) (l : L)
        → sanitize_event_name name ≡ some key
        → get_or_create_key loggers w m key ≡ (some (l, m'), w')
        → (log_bytes_with_event loggers w m name data').0 ≡ store m' key (loggers.log_bytes l data')
    unfolding log_bytes_with_event
    log_bytes_with_event-eq w w' m m' name data' key l e made = ground arith

    -- A message to an event goes to the logger that getOrCreateLogger gives for its name, where it
    -- gives one, and to no other: every other name has the logger that it had, in the same state.
    pub log_bytes_with_event-routes :
        (w w' : W) (m m' : List (Bytes × L)) (name data' key k : Bytes) (l : L)
        → sanitize_event_name name ≡ some key
        → get_or_create_key loggers w m key ≡ (some (l, m'), w')
        → key ≢ k
        → let (after, w'') = log_bytes_with_event loggers w m name data' in
          (load after key ≡ some (loggers.log_bytes l data')) × (load after k ≡ load m k)
    log_bytes_with_event-routes w w' m m' name data' key k l e made ne =
        let next = log_bytes_with_event-eq w w' m m' name data' key l e made in
        (
          ap (λ x. load x key) next ∙ load-store m' key (loggers.log_bytes l data'),
          ap (λ x. load x k) next
              ∙ (load-store_other m' key k (loggers.log_bytes l data') ne
                  ∙ (get_or_create_key-found w w' m m' key l made).1 k ne),
        )

    -- CloseEventLogger on a name that has a logger: that logger is closed, its error is returned, the
    -- event has none any more, and every other name keeps its own.
    pub close_event_logger-removes :
        (m : List (Bytes × L)) (name key k : Bytes) (l : L)
        → sanitize_event_name name ≡ some key
        → load m key ≡ some l
        → key ≢ k
        → let (failed, closed, m') = close_event_logger loggers m name in
          (failed ≡ (loggers.close l).0)
          × (closed ≡ some (loggers.close l).1)
          × (has_event_logger m' name ≡ false)
          × (load m' k ≡ load m k)
    unfolding close_event_logger has_event_logger
    close_event_logger-removes m name key k l e found ne = (
      ground arith,
      ground arith,
      ground (arith, load-delete m key),
      ground (arith, load-delete_other m key k ne),
    )
