-- ===== src/Strings/Affixes.antt =====
-- The tests of prefixes and suffixes.
use cpp_temp_learn.Prelude.{
  ℕ, ◌-◌, true, ◌&&◌, [], ◌∷◌, ◌++◌, ◌≡◌, refl, sym, ap, ◌∙◌, ◌↔◌, arith, Bytes, length,
  length-append, take, drop, take-append-drop, take-append_of_length, drop-append_of_length, equal,
  equal_iff, leb, subst,
}
use cpp_temp_learn.Strings.{starts_with, ends_with, starts_with_byte}

-- `StartsWith` tells whether the text is the prefix with something behind it.
pub starts_with-append :
    (s prefix : Bytes) → (starts_with s prefix ≡ true) ↔ ((rest : Bytes) × (prefix ++ rest ≡ s))
unfolding starts_with
starts_with-append s prefix = (
  λ h. (
    drop (length prefix) s,
    ap (λ t. t ++ drop (length prefix) s) (sym ((equal_iff _ prefix).0 h))
        ∙ take-append-drop (length prefix) s,
  ),
  λ h.
      (equal_iff _ prefix).1
        (ap (take (length prefix)) (sym h.1) ∙ take-append_of_length prefix h.0),
)

ends_cut : (a suffix : Bytes) → drop (length (a ++ suffix) - length suffix) (a ++ suffix) ≡ suffix
ends_cut a suffix =
    let n : length (a ++ suffix) - length suffix ≡ length a =
      omega (arith, length-append a suffix) in
    ap (λ (k : ℕ). drop k (a ++ suffix)) n ∙ drop-append_of_length a suffix

-- `EndsWith` tells whether the text is the suffix with something in front of it.
pub ends_with-append :
    (s suffix : Bytes) → (ends_with s suffix ≡ true) ↔ ((front : Bytes) × (front ++ suffix ≡ s))
unfolding ends_with
ends_with-append s suffix = (
  λ h.
      let same = (equal_iff (drop (length s - length suffix) s) suffix).0 (ground (arith, h)) in
      (
        take (length s - length suffix) s,
        ap (λ t. take (length s - length suffix) s ++ t) (sym same)
            ∙ take-append-drop (length s - length suffix) s,
      ),
  λ h.
      subst
        (λ t.
          (leb (length suffix) (length t) && equal (drop (length t - length suffix) t) suffix)
          ≡ true)
        h.1
        (ground (
          arith,
          length-append h.0 suffix,
          (equal_iff (drop (length (h.0 ++ suffix) - length suffix) (h.0 ++ suffix)) suffix).1
              (ends_cut h.0 suffix),
        )),
)

-- The overloads on one byte agree with those on strings.
pub starts_with_byte-starts_with :
    (s : Bytes) (b : ℕ) → starts_with_byte s b ≡ starts_with s (b ∷ [])
unfolding starts_with_byte starts_with equal
starts_with_byte-starts_with [] b = refl
starts_with_byte-starts_with (c ∷ s) b = ground arith
