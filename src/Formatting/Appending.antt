-- ===== src/Formatting/Appending.antt =====
-- libsrc/libcpputils/stringprintf.cpp: what is appended.
use cpp_temp_learn.Prelude.{
  ℕ, suc, ◌+◌, ◌-◌, ◌<◌, ◌≤◌, [], ◌∷◌, ◌++◌, Option, none, some, ◌≡◌, refl, ap, ◌∙◌, inl, inr,
  arith, Bytes, length, take, drop, take-of_length_le, take-append_of_length, append_assoc, ltb,
  ltb→lt, ltb→le, lt→ltb, le→leb, lt→leb, le→ltb, Bool-cases, if◌then◌else◌, ◌⊎◌,
}
use cpp_temp_learn.Formatting.{
  space_size, int_max, vsnprintf, append_long, append_sized, string_append_v, string_printf,
}

vsnprintf-some :
    (buf : Bytes) (size : ℕ) (text : Bytes)
    → length text ≤ int_max
    → vsnprintf buf size (some text) ≡ (
      (take (size - 1) text ++ 0 ∷ []) ++ drop (0 + length (take (size - 1) text ++ 0 ∷ [])) buf,
      some (length text),
    )
unfolding vsnprintf
vsnprintf-some buf size text h = rw (le→leb (length text) int_max h) refl

vsnprintf-none :
    (buf : Bytes) (size : ℕ) (text : Bytes)
    → int_max < length text
    → vsnprintf buf size (some text) ≡ (buf, none)
unfolding vsnprintf
vsnprintf-none buf size text h = rw (lt→leb (length text) int_max h) refl

-- A text that is shorter than the buffer is taken out of it whole.
take-vsnprintf :
    (buf : Bytes) (size : ℕ) (text : Bytes)
    → length text < size
    → length text ≤ int_max
    → take (length text) (vsnprintf buf size (some text)).0 ≡ text
take-vsnprintf buf size text h k =
    let rest = drop (0 + length (take (size - 1) text ++ 0 ∷ [])) buf in
    ap (λ r. take (length text) r.0) (vsnprintf-some buf size text k)
    ∙ ap (λ t. take (length text) ((t ++ 0 ∷ []) ++ rest))
        (take-of_length_le (size - 1) text (omega (arith, h)))
    ∙ ap (take (length text)) (append_assoc text (0 ∷ []) rest)
    ∙ take-append_of_length text (0 ∷ rest)

append_long-some :
    (dst buf text : Bytes)
    → length text < int_max
    → append_long dst buf (suc (length text)) (some text) ≡ dst ++ text
unfolding append_long
append_long-some dst buf text h =
    let n = length text in
    ap
      (λ (r : Option ℕ). elim r as (λ x. Bytes) [
        | none ↦ dst
        | some m ↦
            if ltb m (suc n) then dst ++ take m (vsnprintf buf (suc n) (some text)).0 else dst
      ])
      (ap (λ r. r.1) (vsnprintf-some buf (suc n) text (omega (arith, h))))
    ∙ rw (lt→ltb n (suc n) (omega arith))
        (ap (◌++◌ dst) (take-vsnprintf buf (suc n) text (omega arith) (omega (arith, h))))

-- Which branch `StringAppendV` takes at a text.
append_v-short :
    (space : Bytes) (new_buffer : ℕ → Bytes) (dst text : Bytes)
    → length text < space_size
    → string_append_v space new_buffer dst (some text) ≡ some (dst ++ text)
unfolding string_append_v
append_v-short space new_buffer dst text h =
    rw
      (
        string_append_v,
        vsnprintf-some space space_size text (omega (arith, h)),
        lt→ltb (length text) space_size h,
      )
      (ap (λ t. some (dst ++ t)) (take-vsnprintf space space_size text h (omega (arith, h))))

append_v-long :
    (space : Bytes) (new_buffer : ℕ → Bytes) (dst text : Bytes)
    → space_size ≤ length text
    → length text ≤ int_max
    → string_append_v space new_buffer dst (some text)
      ≡ append_sized dst new_buffer (length text) (some text)
unfolding string_append_v
append_v-long space new_buffer dst text h k =
    rw (string_append_v, vsnprintf-some space space_size text k, le→ltb (length text) space_size h)
      refl

append_sized-some :
    (new_buffer : ℕ → Bytes) (dst text : Bytes)
    → length text < int_max
    → append_sized dst new_buffer (length text) (some text) ≡ some (dst ++ text)
unfolding append_sized
append_sized-some new_buffer dst text h =
    rw (lt→ltb (length text) int_max h)
      (ap some (append_long-some dst (new_buffer (suc (length text))) text h))

append_sized-none :
    (new_buffer : ℕ → Bytes) (dst text : Bytes)
    → int_max ≤ length text
    → append_sized dst new_buffer (length text) (some text) ≡ none
unfolding append_sized
append_sized-none new_buffer dst text h = rw (le→ltb (length text) int_max h) refl

append_v-some :
    (space : Bytes) (new_buffer : ℕ → Bytes) (dst text : Bytes)
    → length text < int_max
    → string_append_v space new_buffer dst (some text) ≡ some (dst ++ text)
append_v-some space new_buffer dst text h = elim (Bool-cases (ltb (length text) space_size)) [
  | inl e ↦ append_v-short space new_buffer dst text (ltb→lt (length text) space_size e)
  | inr e ↦
      append_v-long space new_buffer dst text (ltb→le (length text) space_size e) (omega (arith, h))
      ∙ append_sized-some new_buffer dst text h
]

append_v-undefined :
    (space : Bytes) (new_buffer : ℕ → Bytes) (dst text : Bytes)
    → length text ≡ int_max
    → string_append_v space new_buffer dst (some text) ≡ none
append_v-undefined space new_buffer dst text e =
    append_v-long space new_buffer dst text (omega (arith, e)) (omega (arith, e))
    ∙ append_sized-none new_buffer dst text (omega (arith, e))

append_v-beyond :
    (space : Bytes) (new_buffer : ℕ → Bytes) (dst text : Bytes)
    → int_max < length text
    → string_append_v space new_buffer dst (some text) ≡ some dst
unfolding string_append_v
append_v-beyond space new_buffer dst text h =
    rw (string_append_v, vsnprintf-none space space_size text h) refl

-- How an appending comes out by the length of the text: whole, undefined, or with nothing appended.
abbrev pub Appended : Bytes → Bytes → Option Bytes → Type 0
Appended dst text result =
    ((length text < int_max) × (result ≡ some (dst ++ text)))
    ⊎ (((length text ≡ int_max) × (result ≡ none))
        ⊎ ((int_max < length text) × (result ≡ some dst)))

append_v-Appended :
    (space : Bytes) (new_buffer : ℕ → Bytes) (dst text : Bytes)
    → Appended dst text (string_append_v space new_buffer dst (some text))
append_v-Appended space new_buffer dst text = elim (Bool-cases (ltb (length text) int_max)) [
  | inl e ↦
      let h = ltb→lt (length text) int_max e in (inl (h, append_v-some space new_buffer dst text h))
  | inr e ↦ elim (Bool-cases (ltb int_max (length text))) [
    | inr l ↦
        let h : length text ≡ int_max =
          omega (arith, ltb→le (length text) int_max e, ltb→le int_max (length text) l) in
        inr (inl (h, append_v-undefined space new_buffer dst text h))
    | inl l ↦
        let h = ltb→lt int_max (length text) l in
        inr (inr (h, append_v-beyond space new_buffer dst text h))
  ]
]

-- `StringAppendV` appends the whole text that the format stands for, if it is shorter than INT_MAX
-- bytes, whichever of its two buffers it needs and whatever these hold before; it has undefined
-- behaviour at INT_MAX bytes, and appends nothing where the text is longer or the formatting fails.
-- `StringPrintf` does the same to the empty text.
pub string_append_v-string_printf :
    (space : Bytes) (new_buffer : ℕ → Bytes) (dst text : Bytes)
    → Appended dst text (string_append_v space new_buffer dst (some text))
      × (string_append_v space new_buffer dst none ≡ some dst)
      × Appended [] text (string_printf space new_buffer (some text))
      × (string_printf space new_buffer none ≡ some [])
unfolding string_printf string_append_v
string_append_v-string_printf space new_buffer dst text = (
  append_v-Appended space new_buffer dst text,
  refl,
  append_v-Appended space new_buffer [] text,
  refl,
)
