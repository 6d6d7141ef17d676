-- ===== src/FsObject/SmallOs.antt =====
-- A small file system: its entries with their modes, the last one first.
use cpp_temp_learn.Prelude.{
  ℕ, ◌+◌, ◌%◌, ◌^◌, ◌≤◌, Bool, true, false, ◌||◌, List, [], ◌∷◌, Option, none, some, ◌≡◌, refl, sym,
  ap, ◌⊎◌, inl, inr, arith, Bytes, codes, length, is_empty, equal, equal_iff, leb, some_inj, subst,
  if◌then◌else◌, Bool-cases,
}
use cpp_temp_learn.FilePath.{default_path, set_path}
use cpp_temp_learn.FileSystem.{directory, symbolic_link, regular_file, type_of, Stat, Holds, Os}
use cpp_temp_learn.FsObject.{FsObject}

abbrev pub Entries : Type 0
Entries = List (Bytes × ℕ)

abbrev pub entry : ℕ → Stat
entry m = record {
  dev = 1;
  ino = 1;
  mode = m;
  nlink = 1;
  uid = 0;
  gid = 0;
  blksize = 0;
  size = 0;
  blocks = 0;
  ctime = 0;
  atime = 0;
  mtime = 0;
}

abbrev pub lookup : Bytes → Entries → Option Stat
lookup p [] = none
lookup p ((q, m) ∷ w) = if equal p q then some (entry m) else lookup p w

abbrev pub is_bad : Bytes → Bool
is_bad p = is_empty p || leb 4096 (length p)

abbrev pub find : Entries → Bytes → Option Stat
find w p = if is_bad p then none else lookup p w

-- A new entry of a type, where there is none and the path is not bad.
abbrev pub enter_at : ℕ → Entries → Bytes → ℕ → Option Stat → Bool → Entries × Bool
enter_at t w p m (some s) b = (w, false)
enter_at t w p m none true = (w, false)
enter_at t w p m none false = ((p, t + m % 2 ^ 9) ∷ w, true)

abbrev pub enter : ℕ → Entries → Bytes → ℕ → Entries × Bool
enter t w p m = enter_at t w p m (find w p) (is_bad p)

-- The nine permission bits of an entry are replaced.
abbrev pub set_mode_at : Entries → Bytes → ℕ → Option Stat → Entries × Bool
set_mode_at w p m none = (w, false)
set_mode_at w p m (some s) = ((p, type_of s.mode + m % 2 ^ 9) ∷ w, true)

abbrev pub set_mode : Entries → Bytes → ℕ → Entries × Bool
set_mode w p m = set_mode_at w p m (find w p)

-- Every path that stands is its own real path.
abbrev pub real_at : Bytes → Option Stat → Option Bytes
real_at p none = none
real_at p (some s) = some p

abbrev pub real : Entries → Bytes → Option Bytes
real w p = real_at p (find w p)

find-front :
    (w : Entries) (p : Bytes) (m : ℕ) → is_bad p ≡ false → find ((p, m) ∷ w) p ≡ some (entry m)
find-front w p m h = rw (h, (equal_iff p p).1 refl) refl

Holds-front :
    (w w' : Entries) (p : Bytes) (m t : ℕ)
    → is_bad p ≡ false
    → (p, m) ∷ w ≡ w'
    → type_of m ≡ t
    → Holds (find w' p) t
Holds-front w w' p m t b h e = rw (← h) (entry m, find-front w p m b, e)

type_kept : (t m : ℕ) → (t ≡ directory) ⊎ (t ≡ regular_file) → type_of (t + m % 2 ^ 9) ≡ t
type_kept t m k = ground (arith, k)

pub makes_at :
    (t : ℕ) (w w' : Entries) (p : Bytes) (m : ℕ) (f : Option Stat) (b : Bool)
    → (t ≡ directory) ⊎ (t ≡ regular_file)
    → is_bad p ≡ b
    → enter_at t w p m f b ≡ (w', true)
    → Holds (find w' p) t
makes_at t w w' p m (some s) b k e h = absurd cc
makes_at t w w' p m none true k e h = absurd cc
makes_at t w w' p m none false k e h =
    Holds-front w w' p (t + m % 2 ^ 9) t e (ap (λ r. r.0) h) (type_kept t m k)

-- An entry more takes away no directory.
more_keeps :
    (w : Entries) (p q : Bytes) (m : ℕ)
    → type_of m ≡ directory
    → Holds (find w q) directory
    → Holds (find ((p, m) ∷ w) q) directory
more_keeps w p q m t h = elim (Bool-cases (is_bad q)) [
  | inl b ↦ absurd (cc (rw b at h.1))
  | inr b ↦ elim (Bool-cases (equal q p)) [
    | inl e ↦ rw (b, e) (entry m, refl, t)
    | inr e ↦ rw (b, e) (h.0, rw b at h.1, h.2)
  ]
]

pub keeps_at :
    (w w' : Entries) (p q : Bytes) (m : ℕ) (ok : Bool) (f : Option Stat) (b : Bool)
    → enter_at directory w p m f b ≡ (w', ok)
    → Holds (find w q) directory
    → Holds (find w' q) directory
keeps_at w w' p q m ok (some s) b h k = rw (← ap (λ r. r.0) h) k
keeps_at w w' p q m ok none true h k = rw (← ap (λ r. r.0) h) k
keeps_at w w' p q m ok none false h k =
    rw (← ap (λ r. r.0) h)
      (more_keeps w p q (directory + m % 2 ^ 9) (type_kept directory m (inl refl)) k)

pub long_is_bad : (w : Entries) (p : Bytes) → 4096 ≤ length p → find w p ≡ none
long_is_bad w p h = let b : is_bad p ≡ true = ground (arith, h) in rw b refl

pub found_at : (w : Entries) (p : Bytes) (s : Stat) → find w p ≡ some s → is_bad p ≡ false
found_at w p s h = elim (Bool-cases (is_bad p)) [ inl b ↦ absurd (cc (rw b at h)) | inr b ↦ b ]

pub real_same : (p r : Bytes) (f : Option Stat) → real_at p f ≡ some r → p ≡ r
real_same p r none h = absurd cc
real_same p r (some s) h = some_inj h

pub sets_at :
    (w w' : Entries) (p : Bytes) (m : ℕ) (s : Stat) (f : Option Stat)
    → is_bad p ≡ false
    → f ≡ some s
    → set_mode_at w p m f ≡ (w', true)
    → (s' : Stat) × (find w' p ≡ some s')
      × (type_of s'.mode ≡ type_of s.mode)
      × (s'.mode % 2 ^ 9 ≡ m % 2 ^ 9)
sets_at w w' p m s none b e h = absurd cc
sets_at w w' p m s (some s') b e h =
    rw (← ap (λ r. r.0) h, ← some_inj e)
      (
        entry (type_of s'.mode + m % 2 ^ 9),
        find-front w p (type_of s'.mode + m % 2 ^ 9) b,
        omega arith,
        omega arith,
      )

-- An entry is taken away.
abbrev pub erase : Bytes → Entries → Entries
erase p [] = []
erase p ((q, m) ∷ w) = let rest = erase p w in if equal p q then rest else (q, m) ∷ rest

lookup-erase : (p : Bytes) (w : Entries) → lookup p (erase p w) ≡ none
lookup-erase p [] = refl
lookup-erase p ((q, m) ∷ w) = elim (Bool-cases (equal p q)) [
  | inl e ↦ rw e (lookup-erase p w)
  | inr e ↦ rw (e, e) (lookup-erase p w)
]

abbrev pub erase_entry : Entries → Bytes → Entries × Bool
erase_entry w p = (erase p w, true)

pub erase_entry_lem : (w w' : Entries) (p : Bytes) → erase_entry w p ≡ (w', true) → find w' p ≡ none
erase_entry_lem w w' p h =
    rw (← ap (λ r. r.0) h)
      (elim (Bool-cases (is_bad p)) [ inl b ↦ rw b refl | inr b ↦ rw b (lookup-erase p w) ])

pub link_fails_at :
    (w w' : Entries) (p : Bytes) (f : Option Stat) (s : Stat) (ok : Bool)
    → f ≡ some s
    → enter_at symbolic_link w p 0x1ff f (is_bad p) ≡ (w', ok)
    → ok ≡ false
link_fails_at w w' p none s ok e h = absurd cc
link_fails_at w w' p (some q) s ok e h = sym (ap (λ r. r.1) h)

pub stands_at :
    (w : Entries) (p r : Bytes) (f : Option Stat)
    → f ≡ find w p
    → real_at p f ≡ some r
    → (s : Stat) × (find w r ≡ some s)
stands_at w p r none e h = absurd cc
stands_at w p r (some s) e h = (s, subst (λ q. find w q ≡ some s) (some_inj h) (sym e))

abbrev pub small_os : Os
small_os = record {
  World = Entries;
  stat = find;
  lstat = find;
  realpath = real;
  mkdir = enter directory;
  create_file = enter regular_file;
  chmod = set_mode;
  unlink = erase_entry;
  symlink = λ w target p. enter symbolic_link w p 0x1ff;
  user_name = λ w id. none;
  group_name = λ w id. none;
  stat_empty = λ w. refl;
  stat_long = long_is_bad;
  mkdir_empty = λ w w' m ok h. sym (ap (λ r. r.1) h);
  mkdir_makes = λ w w' p m h. makes_at directory w w' p m _ _ (inl refl) refl h;
  mkdir_keeps = λ w w' p q m ok h. keeps_at w w' p q m ok _ _ h;
  create_makes = λ w w' p m n h. makes_at regular_file w w' p m _ _ (inr refl) refl h;
  chmod_sets = λ w w' p r m s at e h.
      sets_at w w' p m s _ (found_at w p s at) at
        (subst (λ q. set_mode w q m ≡ (w', true)) (sym (real_same p r (find w p) e)) h);
  lstat_none = λ w p h. h;
  realpath_stands = λ w p r h. stands_at w p r (find w p) refl h;
  unlink_removes = erase_entry_lem;
  symlink_fails = λ w w' target p s ok e h. link_fails_at w w' p (find w p) s ok e h;
}

abbrev pub object : ℕ → Bytes → FsObject
object t s = record { as_path = set_path (default_path false) s; real_path = []; object_type = t }

-- A directory and a regular file in it.
abbrev pub entries : Entries
entries = (codes "/a", 0x41ff) ∷ (codes "/a/b", 0x81a4) ∷ []
