-- ===== src/Strings/Trimmed.antt =====
-- What `Trim` takes off.
use cpp_temp_learn.Prelude.{
  ℕ, true, false, ◌&&◌, [], ◌∷◌, ◌++◌, ◌≡◌, refl, ap, ◌∙◌, ◌⊎◌, inl, inr, arith, Bytes, is_empty,
  is_space, Bool-cases, All,
}
use cpp_temp_learn.Strings.{skip_initial, skip_terminating, trim}

abbrev pub AllSpace : Bytes → Type 0
AllSpace = All (λ c. is_space c ≡ true)

-- No whitespace at the front, and none at the end.
abbrev pub BareFront : Bytes → Type 0
BareFront s = (s ≡ []) ⊎ ((c : ℕ) × (t : Bytes) × (s ≡ c ∷ t) × (is_space c ≡ false))

abbrev pub BareEnd : Bytes → Type 0
BareEnd s = (s ≡ []) ⊎ ((t : Bytes) × (c : ℕ) × (s ≡ t ++ c ∷ []) × (is_space c ≡ false))

initial_go : (c : ℕ) (s : Bytes) → is_space c ≡ true → skip_initial (c ∷ s) ≡ skip_initial s
unfolding skip_initial
initial_go c s e = rw (e, skip_initial) refl

initial_stop : (c : ℕ) (s : Bytes) → is_space c ≡ false → skip_initial (c ∷ s) ≡ c ∷ s
unfolding skip_initial
initial_stop c s e = rw (e, skip_initial) refl

skip_initial-BareFront :
    (s : Bytes)
    → ((a : Bytes) × (a ++ skip_initial s ≡ s) × AllSpace a) × BareFront (skip_initial s)
skip_initial-BareFront [] = unfold skip_initial in (([], refl, tt), inl refl)
skip_initial-BareFront (c ∷ s) = elim (Bool-cases (is_space c)) [
  | inl e ↦
      let ((a, h, k), b) = skip_initial-BareFront s in
      rw (initial_go c s e) ((c ∷ a, ap (λ t. c ∷ t) h, (e, k)), b)
  | inr e ↦ rw (initial_stop c s e) (([], refl, tt), inr (c, s, refl, e))
]

terminating_drop :
    (c : ℕ) (s : Bytes)
    → is_space c ≡ true
    → skip_terminating s ≡ []
    → skip_terminating (c ∷ s) ≡ []
unfolding skip_terminating
terminating_drop c s e h = rw (e, h, skip_terminating) refl

terminating_keep :
    (c : ℕ) (s : Bytes)
    → (is_space c && is_empty (skip_terminating s)) ≡ false
    → skip_terminating (c ∷ s) ≡ c ∷ skip_terminating s
unfolding skip_terminating
terminating_keep c s e = rw (e, skip_terminating) refl

empty_is : (s : Bytes) → is_empty s ≡ true → s ≡ []
empty_is [] h = refl
empty_is (c ∷ s) h = absurd cc

end_cons : (c : ℕ) (s : Bytes) → (is_space c && is_empty s) ≡ false → BareEnd s → BareEnd (c ∷ s)
end_cons c s e (inl h) = inr ([], c, ap (λ t. c ∷ t) h, ground (arith, e, h))
end_cons c s e (inr (t, d, h, k)) = inr (c ∷ t, d, ap (λ u. c ∷ u) h, k)

skip_terminating-BareEnd :
    (s : Bytes)
    → ((b : Bytes) × (skip_terminating s ++ b ≡ s) × AllSpace b) × BareEnd (skip_terminating s)
skip_terminating-BareEnd [] = unfold skip_terminating in (([], refl, tt), inl refl)
skip_terminating-BareEnd (c ∷ s) =
    let ((b, h, k), end) = skip_terminating-BareEnd s in
    elim (Bool-cases (is_space c && is_empty (skip_terminating s))) [
      | inl e ↦
          let nothing = empty_is (skip_terminating s) (ground (arith, e)) in
          let same : b ≡ s = rw nothing at h in
          rw (terminating_drop c s (ground (arith, e)) nothing)
            ((c ∷ b, ap (λ t. c ∷ t) same, (ground (arith, e), k)), inl refl)
      | inr e ↦
          rw (terminating_keep c s e)
            ((b, ap (λ t. c ∷ t) h, k), end_cons c (skip_terminating s) e end)
    ]

front_kept : (s : Bytes) → BareFront s → BareFront (skip_terminating s)
front_kept s (inl h) = inl (ap skip_terminating h ∙ unfold skip_terminating in refl)
front_kept s (inr (c, t, h, e)) =
    inr (c, skip_terminating t, ap skip_terminating h ∙ terminating_keep c t (ground (arith, e)), e)

-- `Trim` takes off whitespace only, in front and at the end, and leaves none there.
pub trim-All :
    (s : Bytes)
    → ((a : Bytes) × (b : Bytes) × (a ++ (trim s ++ b) ≡ s) × AllSpace a × AllSpace b)
      × BareFront (trim s)
      × BareEnd (trim s)
trim-All s =
    let ((a, h, k), front) = skip_initial-BareFront s in
    let ((b, h', k'), end) = skip_terminating-BareEnd (skip_initial s) in
    unfold trim in ((a, b, ap (λ t. a ++ t) h' ∙ h, k, k'), front_kept (skip_initial s) front, end)
