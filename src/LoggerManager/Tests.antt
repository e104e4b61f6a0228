-- ===== src/LoggerManager/Tests.antt =====
-- Runs of the manager over loggers that count their messages.
use logger_double_buffer.Base.{
  ◌*◌, ℕ, suc, ◌≤◌, ◌≡◌, ◌≢◌, refl, ap, false, none, some, Option, List, [], ◌∷◌, arith, length,
}
use logger_double_buffer.Base.Bytes.{Bytes}
use logger_double_buffer.LoggerManager.{
  Loggers, load, store, same_bytes, sanitize_event_name, replace_each, replace_all,
  has_event_logger, load_or_store, get_or_create_key, get_or_create_logger, log_bytes_with_event,
  close_event_logger,
}
use logger_double_buffer.LoggerManager.Names.{IsClean, sanitize_event_name-IsClean}
use logger_double_buffer.LoggerManager.Registry.{
  get_or_create-shared, load_or_store-race, log_bytes_with_event-routes, close_event_logger-removes,
}

-- a/b, a:b, the name a_b of both, and c.
abbrev slash : Bytes
slash = 97 ∷ 47 ∷ 98 ∷ []

abbrev colon : Bytes
colon = 97 ∷ 58 ∷ 98 ∷ []

abbrev key : Bytes
key = 97 ∷ 95 ∷ 98 ∷ []

abbrev c : Bytes
c = 99 ∷ []

-- The world counts the loggers that were made; a logger starts at a hundred times its number.
abbrev loggers : Loggers ℕ ℕ
loggers = record {
  new_logger = λ w name. (some (w * 100), suc w);
  log_bytes = λ n data'. suc n;
  close = λ n. (false, n);
}

slash-key : sanitize_event_name slash ≡ some key
unfolding sanitize_event_name replace_each replace_all
slash-key = refl

colon-key : sanitize_event_name colon ≡ some key
unfolding sanitize_event_name replace_each replace_all
colon-key = refl

slash-filled : slash ≢ []
slash-filled e = cc

key-c : key ≢ c
key-c e = let n : 3 ≡ length c = ap length e in absurd (omega arith)

sanitize_event_name-IsClean_example :
    (name : Bytes) × (sanitize_event_name slash ≡ some name)
    × IsClean name
    × (1 ≤ length name)
    × (length name ≤ 255)
    × (sanitize_event_name name ≡ some name)
sanitize_event_name-IsClean_example = sanitize_event_name-IsClean slash slash-filled

abbrev before : List (Bytes × ℕ)
before = (c, 7) ∷ []

abbrev after : List (Bytes × ℕ)
after = (c, 7) ∷ (key, 300) ∷ []

created : get_or_create_key loggers 3 before key ≡ (some (300, after), 4)
unfolding get_or_create_key load_or_store load store same_bytes
created = refl

created_logger : get_or_create_logger loggers 3 before slash ≡ (some (300, after), 4)
unfolding get_or_create_logger get_or_create_key load_or_store load store same_bytes
    sanitize_event_name replace_each replace_all
created_logger = refl

get_or_create-shared_example : get_or_create_logger loggers 4 after colon ≡ (some (300, after), 4)
get_or_create-shared_example =
    get_or_create-shared loggers 3 4 before after slash colon key 300 slash-key colon-key
      created_logger

log_bytes_with_event-routes_example :
    (load (log_bytes_with_event loggers 3 before slash c).0 key ≡ some 301)
    × (load (log_bytes_with_event loggers 3 before slash c).0 c ≡ load before c)
log_bytes_with_event-routes_example =
    log_bytes_with_event-routes loggers 3 4 before after slash c key c 300 slash-key created key-c

found : load after key ≡ some 300
unfolding load same_bytes
found = refl

close_event_logger-removes_example :
    ((close_event_logger loggers after slash).0 ≡ false)
    × ((close_event_logger loggers after slash).1 ≡ some 300)
    × (has_event_logger (close_event_logger loggers after slash).2 slash ≡ false)
    × (load (close_event_logger loggers after slash).2 c ≡ load after c)
close_event_logger-removes_example =
    close_event_logger-removes loggers after slash key c 300 slash-key found key-c

not_there : load before key ≡ none
unfolding load same_bytes
not_there = refl

abbrev first : ℕ × Option ℕ × List (Bytes × ℕ)
first = load_or_store loggers before key 300

abbrev second : ℕ × Option ℕ × List (Bytes × ℕ)
second = load_or_store loggers first.2 key 400

load_or_store-race_example :
    (first.0 ≡ 300)
    × (second.0 ≡ 300)
    × (first.1 ≡ none)
    × (second.1 ≡ some 400)
    × (load second.2 key ≡ some 300)
    × (load second.2 c ≡ load before c)
load_or_store-race_example = load_or_store-race loggers before key c 300 400 not_there key-c
