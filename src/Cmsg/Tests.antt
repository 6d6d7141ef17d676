-- ===== src/Cmsg/Tests.antt =====
-- The theorems on descriptors at a message with too many of them, and at a queue of messages.
use cpp_temp_learn.Prelude.{
  ℕ, suc, ◌≤◌, false, ◌&&◌, List, [], ◌∷◌, Option, none, some, ◌≡◌, refl, sym, ap, ◌∙◌, subst,
  get_or, append_assoc, ◌++◌, Bytes, length, leb, le→leb, if◌then◌else◌, some_inj,
}
use cpp_temp_learn.Cmsg.{Control, Arrival, Received, Pairwise, SocketOs}

-- Two descriptors, where one is expected.
abbrev two : Arrival
two = record {
  rc = 1;
  truncated = false;
  control_truncated = false;
  controls = (record { level = 1; kind = 1; len = 24; ints = 5 ∷ 6 ∷ [] }) ∷ [];
}

abbrev refused : Received
refused = record { result = none; errno = some 90; fds = []; closed = 6 ∷ 5 ∷ [] }

-- The messages that are queued, and the table of the receiver's descriptors: for the number of each,
-- the descriptor of the sender that it refers to the file of.
abbrev Queue : Type 0
Queue = List (Bytes × Control) × List ℕ

-- New numbers for some descriptors, from the first free one on.
abbrev numbers : ℕ → List ℕ → List ℕ
numbers k [] = []
numbers k (fd ∷ fds) = k ∷ numbers (suc k) fds

get_or-append : (t : List ℕ) (fd : ℕ) (fds : List ℕ) → get_or (t ++ (fd ∷ fds)) (length t) 0 ≡ fd
get_or-append [] fd fds = refl
get_or-append (x ∷ t) fd fds = get_or-append t fd fds

length-append_one : (t : List ℕ) (fd : ℕ) → length (t ++ (fd ∷ [])) ≡ suc (length t)
length-append_one [] fd = refl
length-append_one (x ∷ t) fd = ap suc (length-append_one t fd)

numbers-Pairwise :
    (t fds : List ℕ) → Pairwise (λ fd k. get_or (t ++ fds) k 0 ≡ fd) fds (numbers (length t) fds)
numbers-Pairwise t [] = tt
numbers-Pairwise t (fd ∷ fds) = (
  get_or-append t fd fds,
  subst (λ u. Pairwise (λ v k. get_or u k 0 ≡ v) fds (numbers (suc (length t)) fds))
      (append_assoc t (fd ∷ []) fds)
      (subst (λ n. Pairwise (λ v k. get_or ((t ++ (fd ∷ [])) ++ fds) k 0 ≡ v) fds (numbers n fds))
        (length-append_one t fd) (numbers-Pairwise (t ++ (fd ∷ [])) fds)),
)

abbrev arrival : ℕ → Control → List ℕ → Arrival
arrival n c ints = record {
  rc = n;
  truncated = false;
  control_truncated = false;
  controls = (record c { ints = ints }) ∷ [];
}

-- A message is taken only where there is room for it.
abbrev take_message : Queue → ℕ → ℕ → Queue × Option Arrival
take_message ([], t) len space = (([], t), none)
take_message ((bytes, c) ∷ rest, t) len space =
    if leb (length bytes) len && leb c.len space
    then ((rest, t ++ c.ints), some (arrival (length bytes) c (numbers (length t) c.ints)))
    else ((rest, t), none)

took :
    (bytes : Bytes) (c : Control) (rest : List (Bytes × Control)) (t : List ℕ) (len space : ℕ)
    → length bytes ≤ len
    → c.len ≤ space
    → take_message ((bytes, c) ∷ rest, t) len space
      ≡ ((rest, t ++ c.ints), some (arrival (length bytes) c (numbers (length t) c.ints)))
took bytes c rest t len space h k =
    rw (le→leb (length bytes) len h, le→leb c.len space k, take_message) refl

abbrev queue : SocketOs Queue
queue = record {
  page_size = 4096;
  sendmsg = λ w s bytes c. (((bytes, c) ∷ w.0, w.1), some (length bytes));
  recvmsg = λ w s len space. take_message w len space;
  Refers = λ w fd w' fd'. get_or w'.1 fd' 0 ≡ fd;
  IsFresh = λ w here there. w.0 ≡ [];
  sendmsg_recvmsg = λ w w' here there bytes c n len space f h l k. (
    (w.0, w.1 ++ c.ints),
    numbers (length w.1) c.ints,
    numbers-Pairwise w.1 c.ints,
    ap (λ q. take_message q len space) (sym (ap (λ r. r.0) h))
        ∙ took bytes c w.0 w.1 len space l k
        ∙ ap (λ (m : ℕ). ((w.0, w.1 ++ c.ints), some (arrival m c (numbers (length w.1) c.ints))))
            (some_inj (ap (λ r. r.1) h)),
  );
}
