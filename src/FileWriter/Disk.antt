-- ===== src/FileWriter/Disk.antt =====
-- A kernel in memory that never fails, over which the file writer is run: the files by their paths,
-- and the paths of the open descriptors. A write ends its file.
use logger_double_buffer.Base.{
  ℕ, zero, suc, ◌+◌, ◌≤◌, ◌≡◌, ◌≢◌, refl, sym, ap, ◌∙◌, Bool, true, false, Option, none, some, List,
  [], ◌++◌, arith, ◌==◌, if◌then◌else◌, length, take, replicate, length-take, length-append,
  length-replicate, take-append, take_all,
}
use logger_double_buffer.Base.Bytes.{Bytes}
use logger_double_buffer.FileWriter.{Kernel}
use logger_double_buffer.FileWriter.Laws.{View, Laws, joined}

pub record Disk : Type 0 where
  pub next : ℕ
  pub path_of : ℕ → Option ℕ
  pub file_at : ℕ → Bytes

abbrev pub put_at : {A : Type 0} → ℕ → A → (ℕ → A) → ℕ → A
put_at i v f j = if i == j then v else f j

abbrev content : Disk → Option ℕ → Bytes
content d none = []
content d (some p) = d.file_at p

-- The first bytes of a file, with zeros behind its end.
abbrev first_bytes : ℕ → Bytes → Bytes
first_bytes n bs = take n (bs ++ replicate n 0)

abbrev pub read_disk : Disk → ℕ → ℕ → Bytes
read_disk d fd n = first_bytes n (content d (d.path_of fd))

abbrev open_at : Disk → ℕ → Option ℕ → Option ℕ × Disk
open_at d p (some q) = (none, d)
open_at d p none = (
  some d.next,
  record d {
    next = suc d.next;
    path_of = put_at d.next (some p) d.path_of;
    file_at = put_at p [] d.file_at;
  },
)

abbrev write_at : Disk → ℕ → List Bytes → ℕ → Option ℕ → (ℕ × Bool) × Disk
write_at d fd bs offset none = ((0, true), d)
write_at d fd bs offset (some p) = (
  (length (joined bs), false),
  record d { file_at = put_at p (read_disk d fd offset ++ joined bs) d.file_at },
)

abbrev pub disk : Kernel Disk
disk = record {
  make_dir = λ d p. (false, d);
  open_file = λ d p. open_at d p (d.path_of d.next);
  fallocate = λ d fd size. (false, d);
  pwritev = λ d fd bs offset. write_at d fd bs offset (d.path_of fd);
  fsync = λ d fd. (false, d);
  ftruncate = λ d fd n. (false, d);
  close_file = λ d fd. (false, record d { path_of = put_at fd none d.path_of });
}

abbrev pub view : View Disk
view = record { path = λ d fd. d.path_of fd; read = read_disk }

put_at-same : {A : Type 0} (i : ℕ) (v : A) (f : ℕ → A) → put_at i v f i ≡ v
put_at-same i v f = ground arith

put_at-other : {A : Type 0} (i j : ℕ) (v : A) (f : ℕ → A) → i ≢ j → put_at i v f j ≡ f j
put_at-other i j v f ne = ground arith

length-first_bytes : (n : ℕ) (bs : Bytes) → length (first_bytes n bs) ≡ n
length-first_bytes n bs = omega (
  arith,
  length-take n (bs ++ replicate n 0),
  length-append bs (replicate n zero),
  length-replicate n zero,
)

first_bytes-whole : (n : ℕ) (bs : Bytes) → n ≡ length bs → first_bytes n bs ≡ bs
first_bytes-whole n bs e = take-append bs (replicate n 0) n e

disk-opened :
    (d : Disk) (p fd q : ℕ) (next : Option ℕ)
    → d.path_of d.next ≡ next
    → d.path_of fd ≡ some q
    → q ≢ p
    → ((open_at d p next).1.path_of fd ≡ d.path_of fd)
      × ((n : ℕ) → read_disk (open_at d p next).1 fd n ≡ read_disk d fd n)
disk-opened d p fd q (some r) e at ne = (refl, λ n. refl)
disk-opened d p fd q none e at ne =
    let apart : d.next ≢ fd = λ same. absurd (cc) in
    let path = put_at-other d.next fd (some p) d.path_of apart in
    let file = put_at-other p q [] d.file_at (λ same. ne (sym same)) in
    (path, λ n. rw (path, at, file) refl)

disk-fresh :
    (d : Disk) (p fd q fd' : ℕ) (next : Option ℕ)
    → d.path_of d.next ≡ next
    → d.path_of fd ≡ some q
    → (open_at d p next).0 ≡ some fd'
    → fd' ≢ fd
disk-fresh d p fd q fd' (some r) e at opened same = cc
disk-fresh d p fd q fd' none e at opened same = cc

disk-taken :
    (d : Disk) (fd : ℕ) (bs : List Bytes) (offset : ℕ) (path : Option ℕ)
    → (write_at d fd bs offset path).0.0 ≤ length (joined bs)
disk-taken d fd bs offset none = omega arith
disk-taken d fd bs offset (some p) = omega arith

disk-written :
    (d : Disk) (fd : ℕ) (bs : List Bytes) (offset : ℕ) (path : Option ℕ)
    → d.path_of fd ≡ path
    → (write_at d fd bs offset path).0.1 ≡ false
    → let ((n, failed), d') = write_at d fd bs offset path in
      read_disk d' fd (offset + n) ≡ read_disk d fd offset ++ take n (joined bs)
disk-written d fd bs offset none e ok = absurd (cc)
disk-written d fd bs offset (some p) e ok =
    let old = read_disk d fd offset in
    let size = length-first_bytes offset (content d (d.path_of fd)) in
    let sizes = length-append old (joined bs) in
    let here = put_at-same p (old ++ joined bs) d.file_at in
    ap
      (λ x.
        first_bytes (offset + length (joined bs)) (content (write_at d fd bs offset (some p)).1 x))
      e
    ∙ (ap (first_bytes (offset + length (joined bs))) here
        ∙ (first_bytes-whole (offset + length (joined bs)) (old ++ joined bs) (omega arith)
            ∙ ap (λ x. old ++ x) (sym (take_all (length (joined bs)) (joined bs) (omega arith)))))

pub disk-Laws : Laws disk view
disk-Laws = record {
  made = λ d p fd q at. (refl, λ n. refl);
  opened = λ d p fd q at ne. disk-opened d p fd q (d.path_of d.next) refl at ne;
  fresh = λ d p fd q fd' at opened. disk-fresh d p fd q fd' (d.path_of d.next) refl at opened;
  allocated = λ d fd' size fd q at. (refl, λ n. refl);
  closed = λ d fd' fd q at ne.
      let path = put_at-other fd' fd none d.path_of ne in (path, λ n. rw path refl);
  nothing = λ d fd. refl;
  taken = λ d fd bs offset. disk-taken d fd bs offset (d.path_of fd);
  written = λ d fd bs offset ok. disk-written d fd bs offset (d.path_of fd) refl ok;
}
