-- ===== src/LoggerManager.antt =====
-- asyncloguploader/logger_manager.go: one logger for each event name. Names are byte strings; the
-- loggers are what the manager calls: made, written to and closed. A logger is made in a world (the
-- file system, the clock) that the making changes. The concurrent map is an association list. The
-- operations run one after another; getOrCreateLogger's last step stands on its own, so that two
-- calls can be run whose lookups both come before it.
pub mod Names
pub mod Registry
mod Tests
use logger_double_buffer.Base.{
  ℕ, zero, suc, ◌≡◌, Bool, true, false, ◌&&◌, not, Option, none, some, List, [], ◌∷◌, ◌++◌, map,
  leb, ltb, ◌==◌, if◌then◌else◌, length, take,
}
use logger_double_buffer.Base.Bytes.{Bytes}

-- / \ : * ? " < > | in the order of the code, and the space that is replaced after them
abbrev pub invalid_chars : Bytes
invalid_chars = 47 ∷ 92 ∷ 58 ∷ 42 ∷ 63 ∷ 34 ∷ 60 ∷ 62 ∷ 124 ∷ 32 ∷ []

abbrev pub underscore : ℕ
underscore = 95

-- strings.ReplaceAll of one character by an underscore
pub replace_all : ℕ → Bytes → Bytes
replace_all c [] = []
replace_all c (b ∷ bs) = (if b == c then underscore else b) ∷ replace_all c bs

pub replace_each : Bytes → Bytes → Bytes
unfolding replace_all
replace_each [] name = name
replace_each (c ∷ cs) name = replace_each cs (replace_all c name)

abbrev pub cut : Bytes → Bytes
cut name = if ltb 255 (length name) then take 255 name else name

abbrev pub not_empty : Bytes → Option Bytes
not_empty [] = none
not_empty (b ∷ bs) = some (b ∷ bs)

-- sanitizeEventName; `none` is its error.
unfoldable pub sanitize_event_name : Bytes → Option Bytes
unfolding replace_each
sanitize_event_name [] = none
sanitize_event_name (b ∷ bs) = not_empty (cut (replace_each invalid_chars (b ∷ bs)))

unfoldable pub same_bytes : Bytes → Bytes → Bool
same_bytes [] [] = true
same_bytes [] (b ∷ bs) = false
same_bytes (a ∷ as') [] = false
same_bytes (a ∷ as') (b ∷ bs) = a == b && same_bytes as' bs

-- What the manager needs of a logger: NewLogger at a name (`none` is its error), LogBytes, and
-- Close with its error.
pub record Loggers (W L : Type 0) : Type 0 where
  pub new_logger : W → Bytes → Option L × W
  pub log_bytes : L → Bytes → L
  pub close : L → Bool × L

module _ {L : Type 0} where
  unfoldable pub load : List (Bytes × L) → Bytes → Option L
  unfolding same_bytes
  load [] name = none
  load ((k, l) ∷ m) name = if same_bytes k name then some l else load m name

  unfoldable pub store : List (Bytes × L) → Bytes → L → List (Bytes × L)
  unfolding same_bytes
  store [] name l = (name, l) ∷ []
  store ((k, l') ∷ m) name l = if same_bytes k name then (k, l) ∷ m else (k, l') ∷ store m name l

  unfoldable pub delete : List (Bytes × L) → Bytes → List (Bytes × L)
  unfolding same_bytes
  delete [] name = []
  delete ((k, l) ∷ m) name = if same_bytes k name then delete m name else (k, l) ∷ delete m name

  -- ListEventLoggers
  unfoldable pub list_event_loggers : List (Bytes × L) → List Bytes
  list_event_loggers [] = []
  list_event_loggers ((k, l) ∷ m) = k ∷ list_event_loggers m

  -- HasEventLogger
  unfoldable pub has_event_logger : List (Bytes × L) → Bytes → Bool
  has_event_logger m name = elim (sanitize_event_name name) [
    | none ↦ false
    | some key ↦ elim (load m key) [ none ↦ false | some l ↦ true ]
  ]

  module _ {W : Type 0} (loggers : Loggers W L) where
    -- LoadOrStore of a logger that was made, and the Close of it where another goroutine was first:
    -- the logger to use, the one that was closed, and the map.
    unfoldable pub load_or_store : List (Bytes × L) → Bytes → L → L × Option L × List (Bytes × L)
    unfolding load store
    load_or_store m key l = elim (load m key) [
      | some actual ↦ (actual, some (loggers.close l).1, m)
      | none ↦ (l, none, store m key l)
    ]

    abbrev pub keep : L × Option L × List (Bytes × L) → L × List (Bytes × L)
    keep (l, closed, m) = (l, m)

    -- getOrCreateLogger, on a name that is sanitized already: the logger and the map, and the world.
    unfoldable pub get_or_create_key :
        W → List (Bytes × L) → Bytes → Option (L × List (Bytes × L)) × W
    unfolding load load_or_store
    get_or_create_key w m key = elim (load m key) [
      | some l ↦ (some (l, m), w)
      | none ↦
          let (made, w') = loggers.new_logger w key in
          elim made [ none ↦ (none, w') | some l ↦ (some (keep (load_or_store m key l)), w') ]
    ]

    -- getOrCreateLogger; `none` is an error.
    unfoldable pub get_or_create_logger :
        W → List (Bytes × L) → Bytes → Option (L × List (Bytes × L)) × W
    unfolding get_or_create_key
    get_or_create_logger w m name = elim (sanitize_event_name name) [
      | none ↦ (none, w)
      | some key ↦ get_or_create_key w m key
    ]

    -- LogBytesWithEvent: the logger that the map points to changes.
    unfoldable pub log_bytes_with_event :
        W → List (Bytes × L) → Bytes → Bytes → List (Bytes × L) × W
    unfolding get_or_create_key store
    log_bytes_with_event w m name data' = elim (sanitize_event_name name) [
      | none ↦ (m, w)
      | some key ↦
          let (found, w') = get_or_create_key w m key in
          elim found [
            | none ↦ (m, w')
            | some (l, m') ↦ (store m' key (loggers.log_bytes l data'), w')
          ]
    ]

    -- InitializeEventLogger; true is an error.
    unfoldable pub initialize_event_logger :
        W → List (Bytes × L) → Bytes → Bool × List (Bytes × L) × W
    unfolding load get_or_create_logger
    initialize_event_logger w m name = elim (sanitize_event_name name) [
      | none ↦ (true, m, w)
      | some key ↦ elim (load m key) [
        | some l ↦ (false, m, w)
        | none ↦
            let (found, w') = get_or_create_logger w m key in
            elim found [ none ↦ (true, m, w') | some (l, m') ↦ (false, m', w') ]
      ]
    ]

    -- CloseEventLogger: the error, what became of the logger, and the map.
    unfoldable pub close_event_logger :
        List (Bytes × L) → Bytes → Bool × Option L × List (Bytes × L)
    unfolding load delete
    close_event_logger m name = elim (sanitize_event_name name) [
      | none ↦ (true, none, m)
      | some key ↦ elim (load m key) [
        | none ↦ (true, none, m)
        | some l ↦ let (failed, l') = loggers.close l in (failed, some l', delete m key)
      ]
    ]

    -- Close: every logger is closed and stays in the map; the first error is returned, so there is
    -- one exactly if some logger failed.
    unfoldable pub close : List (Bytes × L) → Bool × List (Bytes × L)
    close [] = (false, [])
    close ((k, l) ∷ m) =
        let (failed, l') = loggers.close l in
        let rest = close m in ((if failed then true else rest.0), (k, l') ∷ rest.1)
