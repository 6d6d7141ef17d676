-- ===== src/Strings/Parts.antt =====
-- `Split` and `Join` undo each other.
use cpp_temp_learn.Prelude.{
  ℕ, true, false, List, [], ◌∷◌, ◌++◌, some, ◌≡◌, ◌≢◌, refl, sym, ap, ◌∙◌, ◌↔◌, inl, inr, arith,
  Bytes, Bool-cases, append-nil, append_assoc, All, All-append, Lacks,
}
use cpp_temp_learn.Strings.{is_delimiter, split_from, split, join}

single : (d c : ℕ) → (is_delimiter (d ∷ []) c ≡ true) ↔ (c ≡ d)
unfolding is_delimiter
single d c = ground arith

split_at :
    (ds cur : Bytes) (c : ℕ) (s : Bytes)
    → is_delimiter ds c ≡ true
    → split_from ds cur (c ∷ s) ≡ cur ∷ split_from ds [] s
unfolding split_from
split_at ds cur c s e = rw (e, split_from) refl

split_on :
    (ds cur : Bytes) (c : ℕ) (s : Bytes)
    → is_delimiter ds c ≡ false
    → split_from ds cur (c ∷ s) ≡ split_from ds (cur ++ c ∷ []) s
unfolding split_from
split_on ds cur c s e = rw (e, split_from) refl

-- There is always a first part.
split_from-ne_nil :
    (ds cur s : Bytes) → (p : Bytes) × (ps : List Bytes) × (split_from ds cur s ≡ p ∷ ps)
split_from-ne_nil ds cur [] = (cur, [], unfold split_from in refl)
split_from-ne_nil ds cur (c ∷ s) = elim (Bool-cases (is_delimiter ds c)) [
  | inl e ↦ (cur, split_from ds [] s, split_at ds cur c s e)
  | inr e ↦
      let (p, ps, h) = split_from-ne_nil ds (cur ++ c ∷ []) s in (p, ps, split_on ds cur c s e ∙ h)
]

pub join-cons :
    (p : Bytes) (ps : List Bytes) (d : ℕ) → ps ≢ [] → join (p ∷ ps) d ≡ p ++ (d ∷ join ps d)
unfolding join
join-cons p [] d h = absurd (h refl)
join-cons p (q ∷ ps) d h = refl

pub join-single : (p : Bytes) (d : ℕ) → join (p ∷ []) d ≡ p
unfolding join
join-single p d = refl

join-split_from : (d : ℕ) (cur s : Bytes) → join (split_from (d ∷ []) cur s) d ≡ cur ++ s
join-split_from d cur [] = unfold join split_from in sym (append-nil cur)
join-split_from d cur (c ∷ s) = elim (Bool-cases (is_delimiter (d ∷ []) c)) [
  | inl e ↦
      let (p, ps, h) = split_from-ne_nil (d ∷ []) [] s in
      let at : c ≡ d = (single d c).0 e in
      rw (split_at (d ∷ []) cur c s e) (
        join-cons cur (split_from (d ∷ []) [] s) d (λ k. absurd (cc (k, h)))
        ∙ ap (λ t. cur ++ (d ∷ t)) (join-split_from d [] s)
        ∙ ap (λ b. cur ++ (b ∷ s)) (sym at))
  | inr e ↦
      rw (split_on (d ∷ []) cur c s e)
        (join-split_from d (cur ++ c ∷ []) s ∙ append_assoc cur (c ∷ []) s)
]

split_from-Lacks : (d : ℕ) (cur s : Bytes) → Lacks d cur → All (Lacks d) (split_from (d ∷ []) cur s)
split_from-Lacks d cur [] h = unfold split_from in (h, tt)
split_from-Lacks d cur (c ∷ s) h = elim (Bool-cases (is_delimiter (d ∷ []) c)) [
  | inl e ↦ rw (split_at (d ∷ []) cur c s e) (h, split_from-Lacks d [] s tt)
  | inr e ↦ rw (split_on (d ∷ []) cur c s e) (
      split_from-Lacks d (cur ++ c ∷ []) s
        (All-append (λ b. b ≢ d) cur (c ∷ []) h ((λ k. absurd (cc (e, (single d c).1 k))), tt)))
]

-- The parts that `Split` finds at one byte hold that byte nowhere, and `Join` puts the text
-- together again.
pub join-split :
    (s : Bytes) (d : ℕ)
    → (ps : List Bytes) × (split s (d ∷ []) ≡ some ps) × (join ps d ≡ s) × All (Lacks d) ps
join-split s d = (
  split_from (d ∷ []) [] s,
  unfold split in refl,
  join-split_from d [] s,
  split_from-Lacks d [] s tt,
)

pub split_from-plain :
    (d : ℕ) (cur p s : Bytes)
    → Lacks d p
    → split_from (d ∷ []) cur (p ++ (d ∷ s)) ≡ (cur ++ p) ∷ split_from (d ∷ []) [] s
split_from-plain d cur [] s h =
    split_at (d ∷ []) cur d s ((single d d).1 refl)
    ∙ ap (λ t. t ∷ split_from (d ∷ []) [] s) (sym (append-nil cur))
split_from-plain d cur (c ∷ p) s h = elim (Bool-cases (is_delimiter (d ∷ []) c)) [
  | inl e ↦ absurd (h.0 ((single d c).0 e))
  | inr e ↦
      split_on (d ∷ []) cur c (p ++ (d ∷ s)) e
      ∙ split_from-plain d (cur ++ c ∷ []) p s h.1
      ∙ ap (λ t. t ∷ split_from (d ∷ []) [] s) (append_assoc cur (c ∷ []) p)
]

split_from-last : (d : ℕ) (cur p : Bytes) → Lacks d p → split_from (d ∷ []) cur p ≡ (cur ++ p) ∷ []
split_from-last d cur [] h = unfold split_from in ap (λ t. t ∷ []) (sym (append-nil cur))
split_from-last d cur (c ∷ p) h = elim (Bool-cases (is_delimiter (d ∷ []) c)) [
  | inl e ↦ absurd (h.0 ((single d c).0 e))
  | inr e ↦
      split_on (d ∷ []) cur c p e
      ∙ split_from-last d (cur ++ c ∷ []) p h.1
      ∙ ap (λ t. t ∷ []) (append_assoc cur (c ∷ []) p)
]

split_from-join :
    (d : ℕ) (p : Bytes) (ps : List Bytes)
    → All (Lacks d) (p ∷ ps)
    → split_from (d ∷ []) [] (join (p ∷ ps) d) ≡ p ∷ ps
split_from-join d p [] h =
    ap (split_from (d ∷ []) []) (join-single p d) ∙ split_from-last d [] p h.0
split_from-join d p (q ∷ ps) h =
    ap (split_from (d ∷ []) []) (join-cons p (q ∷ ps) d (λ k. absurd cc))
    ∙ split_from-plain d [] p (join (q ∷ ps) d) h.0
    ∙ ap (λ t. p ∷ t) (split_from-join d q ps h.1)

-- `Split` finds again the parts that `Join` put together, where there is one at least and none
-- holds the separator.
pub split-join :
    (p : Bytes) (ps : List Bytes) (d : ℕ)
    → All (Lacks d) (p ∷ ps)
    → split (join (p ∷ ps) d) (d ∷ []) ≡ some (p ∷ ps)
split-join p ps d h = unfold split in ap some (split_from-join d p ps h)

pub split-Lacks : (d : ℕ) (s : Bytes) → Lacks d s → split s (d ∷ []) ≡ some (s ∷ [])
split-Lacks d s h = unfold split in ap some (split_from-last d [] s h)
