-- ===== src/Cmsg/Receiving.antt =====
-- libsrc/libcpputils/cmsg.cpp: what becomes of the descriptors that arrive.
use cpp_temp_learn.Prelude.{
  ℕ, suc, ◌≤◌, true, false, List, [], ◌∷◌, ◌++◌, Option, none, some, ◌≡◌, refl, ap, ◌⊎◌, map,
  reverse, length, All,
}
use cpp_temp_learn.UniqueFd.{construct, reset}
use cpp_temp_learn.Cmsg.{
  Control, Arrival, Received, emplace_all, is_rights, control_fds, collect_controls,
}

-- The descriptors of a control message that holds some.
abbrev pub fds_of : Control → List ℕ
fds_of c = elim (is_rights c) [
  | false ↦ []
  | true ↦ elim (control_fds c) [ none ↦ [] | some fds ↦ fds ]
]

abbrev pub all_fds : List Control → List ℕ
all_fds [] = []
all_fds (c ∷ cs) = fds_of c ++ all_fds cs

pub emplace_all-map : (closed fds : List ℕ) → emplace_all closed fds ≡ map some fds
unfolding emplace_all construct reset
emplace_all-map closed [] = refl
emplace_all-map closed (fd ∷ fds) = ap (◌∷◌ (some fd)) (emplace_all-map closed fds)

pub length-map-some : (fds : List ℕ) → length (map {B = Option ℕ} some fds) ≡ length fds
length-map-some [] = refl
length-map-some (fd ∷ fds) = ap suc (length-map-some fds)

pub collect_controls_rights :
    (c : Control) (cs : List Control) (error : Option ℕ) (received fds : List ℕ)
    → is_rights c ≡ true
    → control_fds c ≡ some fds
    → collect_controls (c ∷ cs) error received ≡ collect_controls cs error (received ++ fds)
unfolding collect_controls
collect_controls_rights c cs error received fds e f = rw (e, f, collect_controls) refl

-- The message was not cut off, and holds nothing but descriptors.
abbrev pub IsWhole : Arrival → Type 0
IsWhole a =
    (a.truncated ≡ false) × (a.control_truncated ≡ false) × All (λ c. is_rights c ≡ true) a.controls

-- Each descriptor that arrived is the caller's, or it is closed.
abbrev pub Kept : ℕ → List ℕ → List ℕ → Received → Type 0
Kept max_fds closed arrived r =
    (r.fds ≡ map some arrived) × (r.closed ≡ closed) × (length arrived ≤ max_fds)

abbrev pub Closed : List ℕ → List ℕ → Received → Type 0
Closed closed arrived r = (r.result ≡ none) × (r.fds ≡ []) × (r.closed ≡ reverse arrived ++ closed)

abbrev pub Ending : ℕ → List ℕ → Arrival → Received → Type 0
Ending max_fds closed a r =
    ((r.result ≡ some a.rc) × IsWhole a × Kept max_fds closed (all_fds a.controls) r)
    ⊎ Closed closed (all_fds a.controls) r
