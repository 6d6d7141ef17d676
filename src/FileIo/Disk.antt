-- ===== src/FileIo/Disk.antt =====
-- A disk with one file, to which a call writes one byte at most.
use cpp_temp_learn.Prelude.{
  ℕ, zero, suc, ◌+◌, ◌≤◌, ◌<◌, true, [], ◌∷◌, ◌++◌, Option, none, some, ◌≡◌, refl, sym, ap, ◌∙◌,
  append-nil, arith, Bytes, codes, length, length-take, take, drop, drop-drop, take-append-drop,
}
use cpp_temp_learn.FileSystem.{Stat, regular_file}
use cpp_temp_learn.FileIo.{FdOs}
use cpp_temp_learn.FileIo.Files.{FileOs, Reply, found, failed}

pub record Disk : Type 0 where
  pub kept : Option Bytes
  pub ahead : Bytes
  pub taken : Bytes

abbrev pub or_empty : Option Bytes → Bytes
or_empty none = []
or_empty (some s) = s

abbrev or_zero : Option ℕ → ℕ
or_zero none = 0
or_zero (some n) = n

abbrev put : Disk → ℕ → Bytes → Disk × Option ℕ
put w fd [] = (w, some 0)
put w fd (c ∷ bs) = (record w { taken = w.taken ++ (c ∷ []) }, some 1)

abbrev get : Disk → ℕ → ℕ → Disk × Option Bytes
get w fd count = (record w { ahead = drop count w.ahead }, some (take count w.ahead))

abbrev get_at : Disk → ℕ → ℕ → ℕ → Disk × Option Bytes
get_at w fd count offset = (w, some (take count (drop offset (or_empty w.kept))))

take-drop-length : (n : ℕ) (s : Bytes) → s ≡ take n s ++ drop (length (take n s)) s
take-drop-length zero s = refl
take-drop-length (suc n) [] = refl
take-drop-length (suc n) (c ∷ s) = ap (◌∷◌ c) (take-drop-length n s)

pub get_takes :
    (w w' : Disk) (fd count : ℕ) (bs : Bytes)
    → get w fd count ≡ (w', some bs)
    → (w.ahead ≡ bs ++ w'.ahead) × (length bs ≤ count)
get_takes w w' fd count bs h =
    rw (← ap (λ r. r.0) h, ← ap (λ r. or_empty r.1) h)
      (sym (take-append-drop count w.ahead), omega (arith, length-take count w.ahead))

pub get_ends :
    (w w' : Disk) (fd count : ℕ) → 0 < count → get w fd count ≡ (w', some []) → w.ahead ≡ []
get_ends w w' fd zero l h = absurd (omega (arith, l))
get_ends w w' fd (suc n) l h = empty w.ahead (ap (λ r. or_empty r.1) h)
  where
    empty : (s : Bytes) → take (suc n) s ≡ [] → s ≡ []
    empty [] e = refl
    empty (c ∷ s) e = absurd (cc e)

pub get_at_takes :
    (w w' : Disk) (fd count offset : ℕ) (bs : Bytes)
    → get_at w fd count offset ≡ (w', some bs)
    → (drop offset (or_empty w.kept) ≡ bs ++ drop (offset + length bs) (or_empty w.kept))
      × (length bs ≤ count)
get_at_takes w w' fd count offset bs h =
    let s = drop offset (or_empty w.kept) in
    rw (← ap (λ r. or_empty r.1) h) (
      take-drop-length count s
          ∙ ap (λ t. take count s ++ t)
              (drop-drop offset (length (take count s)) (or_empty w.kept)),
      omega (arith, length-take count s),
    )

pub put_adds :
    (w w' : Disk) (fd n : ℕ) (bs : Bytes)
    → put w fd bs ≡ (w', some n)
    → (w'.taken ≡ w.taken ++ take n bs) × (n ≤ length bs)
put_adds w w' fd n bs h = rw (← ap (λ r. r.0) h, ← ap (λ r. or_zero r.1) h) (added bs)
  where
    added :
        (bs : Bytes)
        → ((put w fd bs).0.taken ≡ w.taken ++ take (or_zero (put w fd bs).1) bs)
          × (or_zero (put w fd bs).1 ≤ length bs)
    added [] = (sym (append-nil w.taken), omega arith)
    added (c ∷ bs) = (refl, omega arith)

pub put_goes_on :
    (w w' : Disk) (fd n : ℕ) (bs : Bytes) → 0 < length bs → put w fd bs ≡ (w', some n) → 0 < n
put_goes_on w w' fd n [] l h = absurd (omega (arith, l))
put_goes_on w w' fd n (c ∷ bs) l h = omega (arith, ap (λ r. or_zero r.1) h)

pub put_fails : (w w' : Disk) (fd : ℕ) (bs : Bytes) → put w fd bs ≡ (w', none) → w'.taken ≡ w.taken
put_fails w w' fd [] h = absurd (cc (ap (λ r. r.1) h))
put_fails w w' fd (c ∷ bs) h = absurd (cc (ap (λ r. r.1) h))

abbrev pub descriptors : FdOs Disk
descriptors = record {
  read = get;
  pread = get_at;
  write = put;
  pending = λ w fd. w.ahead;
  written = λ w fd. w.taken;
  content = λ w fd. or_empty w.kept;
  read_takes = get_takes;
  read_ends = get_ends;
  pread_takes = get_at_takes;
  pread_keeps = λ w w' fd count offset r h. rw (← ap (λ x. x.0) h) refl;
  write_adds = put_adds;
  write_goes_on = put_goes_on;
  write_fails = put_fails;
}

abbrev plain : Stat
plain = record {
  dev = 1;
  ino = 1;
  mode = regular_file;
  nlink = 1;
  uid = 0;
  gid = 0;
  blksize = 0;
  size = 0;
  blocks = 0;
  ctime = 0;
  atime = 0;
  mtime = 0;
}

abbrev look : Option Bytes → Reply Stat
look none = failed 2
look (some s) = found plain

abbrev start_read : Disk → Option Bytes → Disk × Option ℕ
start_read w none = (w, none)
start_read w (some s) = (record w { ahead = s }, some 3)

pub start_read_ahead :
    (w w' : Disk) (kept : Option Bytes) (fd : ℕ)
    → start_read w kept ≡ (w', some fd)
    → kept ≡ some w'.ahead
start_read_ahead w w' none fd h = absurd (cc (ap (λ r. r.1) h))
start_read_ahead w w' (some s) fd h = ap (λ r. some r.0.ahead) h

abbrev start_write : Disk → Disk × Option ℕ
start_write w = (record w { kept = some []; taken = [] }, some 3)

-- The target of every symbolic link.
abbrev pub somewhere : Bytes
somewhere = codes "/there"

pub no_target :
    (size : ℕ)
    → ◌≡◌ {A = Option Bytes} (some somewhere) none
    → ◌≡◌ {A = Option Bytes} (some (take size somewhere)) none
no_target size h = absurd (cc h)

abbrev pub disk : FileOs Disk
disk = record {
  fds = descriptors;
  open_read = λ w path follow. start_read w w.kept;
  open_write = λ w path mode follow. start_write w;
  close = λ w fd. record w { kept = some w.taken };
  fchmod = λ w fd mode. (w, true);
  fchown = λ w fd owner group. (w, true);
  unlink = λ w path. (record w { kept = none }, none);
  lstat = λ w path. look w.kept;
  link = λ w path. some somewhere;
  readlink = λ w path size. some (take size somewhere);
  strerror = λ e. [];
  file = λ w path. w.kept;
  IsOpen = λ w fd path. Unit;
  open_read_pending = λ w w' path follow fd h. start_read_ahead w w' w.kept fd h;
  open_write_IsOpen = λ w w' path mode follow fd h. (tt, ap (λ r. r.0.taken) (sym h));
  write_IsOpen = λ w w' fd path bs r h o. tt;
  fchmod_IsOpen = λ w w' fd mode path ok h o. (tt, ap (λ r. r.0.taken) (sym h));
  fchown_IsOpen = λ w w' fd owner group path ok h o. (tt, ap (λ r. r.0.taken) (sym h));
  close_file = λ w fd path o. refl;
  unlink_gone = λ w w' path h. ap (λ r. look r.0.kept) (sym h);
  readlink_takes = λ w path target size h. ap (λ r. some (take size (or_empty r))) h;
  readlink_fails = λ w path size h. no_target size h;
}
