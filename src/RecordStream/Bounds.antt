-- ===== src/RecordStream/Bounds.antt =====
-- The offsets stay within the buffer, and what a look into the buffer takes from it.
use cpp_temp_learn.Prelude.{
  ℕ, ◌+◌, ◌-◌, ◌≤◌, [], ◌∷◌, ◌++◌, ◌≡◌, refl, sym, ap, subst, some_inj, ◌∙◌, inl, inr, arith, none,
  some, Option-cases, Bool-cases, Bytes, length, slice, slice-split, slice-overwrite, length-slice,
  length-overwrite, overwrite, take, drop, ◌==◌,
}
use cpp_temp_learn.RecordStream.{
  RecordStream, header_size, ntohl, get_end_of_record, get_next_record, record_stream_new, compact,
}

pub record IsValid (rs : RecordStream) : Type 0 where
  pub ordered : rs.unconsumed ≤ rs.read_end
  pub within : rs.read_end ≤ rs.buffer_end
  pub allocated : length rs.buffer ≡ rs.buffer_end
  pub sized : rs.buffer_end ≡ rs.max_record_len + header_size

pub record_stream_new-IsValid :
    (fd max : ℕ) (block : Bytes) {rs : RecordStream}
    → length block ≡ max + header_size
    → record_stream_new fd max block ≡ some rs
    → IsValid rs
unfolding record_stream_new
record_stream_new-IsValid fd max block h e = ground arith

-- The bytes that are in the buffer and not consumed yet.
abbrev pub held : RecordStream → Bytes
held rs = slice rs.buffer rs.unconsumed rs.read_end

-- Four bytes that say `n`, highest first.
pub record IsHeader (h : Bytes) (n : ℕ) : Type 0 where
  pub four : length h ≡ header_size
  pub says : ntohl h 0 ≡ n

ntohl-take : (s : Bytes) → ntohl (take 4 s) 0 ≡ ntohl s 0
unfolding ntohl
ntohl-take [] = refl
ntohl-take (a ∷ []) = refl
ntohl-take (a ∷ b ∷ []) = refl
ntohl-take (a ∷ b ∷ c ∷ []) = refl
ntohl-take (a ∷ b ∷ c ∷ d ∷ s) = refl

ntohl-drop : (b : Bytes) (u : ℕ) → ntohl (drop u b) 0 ≡ ntohl b u
unfolding ntohl
ntohl-drop b u = refl

get_end_of_record-some :
    (b : Bytes) (u e p : ℕ)
    → get_end_of_record b u e ≡ some p
    → (p ≡ u + header_size + ntohl b u) × (p ≤ e)
unfolding get_end_of_record
get_end_of_record-some b u e p h = ground arith

-- What a look into the buffer takes: the header and the record, which are not held any more.
pub record Takes (rs rs' : RecordStream) (r : Bytes) : Type 0 where
  pub valid : IsValid rs'
  pub same_fd : rs'.fd ≡ rs.fd
  pub same_max : rs'.max_record_len ≡ rs.max_record_len
  pub header : Bytes
  pub is_header : IsHeader header (length r)
  pub taken : held rs ≡ header ++ (r ++ held rs')

look_none :
    (rs : RecordStream)
    → get_end_of_record rs.buffer rs.unconsumed rs.read_end ≡ none
    → get_next_record rs ≡ none
unfolding get_next_record
look_none rs n = ground arith

look_some :
    (rs : RecordStream) (p : ℕ)
    → get_end_of_record rs.buffer rs.unconsumed rs.read_end ≡ some p
    → get_next_record rs
      ≡ some (record rs { unconsumed = p }, slice rs.buffer (rs.unconsumed + header_size) p)
unfolding get_next_record
look_some rs p n = ground arith

module _ (rs : RecordStream) (v : IsValid rs) where
  take_record :
      (p : ℕ)
      → p ≡ rs.unconsumed + header_size + ntohl rs.buffer rs.unconsumed
      → p ≤ rs.read_end
      → Takes rs (record rs { unconsumed = p }) (slice rs.buffer (rs.unconsumed + header_size) p)
  take_record p e q =
      let u = rs.unconsumed in
      let b = rs.buffer in
      let h = slice b u (u + header_size) in
      record {
        valid = omega arith;
        same_fd = refl;
        same_max = refl;
        header = h;
        is_header = record {
          four = omega (arith, length-slice b u (u + header_size));
          says =
              ap (λ (n : ℕ). ntohl (take n (drop u b)) 0) {y = 4} (omega arith)
              ∙ ntohl-take (drop u b)
              ∙ ntohl-drop b u
              ∙ omega (arith, length-slice b (u + header_size) p);
        };
        taken =
            slice-split b u (u + header_size) rs.read_end (omega arith) (omega arith)
            ∙ ap (◌++◌ h) (slice-split b (u + header_size) p rs.read_end (omega arith) q);
      }

  pub get_next_record-Takes :
      {rs' : RecordStream} {r : Bytes} → get_next_record rs ≡ some (rs', r) → Takes rs rs' r
  get_next_record-Takes h =
      elim (Option-cases (get_end_of_record rs.buffer rs.unconsumed rs.read_end)) [
        | inl n ↦ cc (h, sym (look_none rs n))
        | inr (p, n) ↦
            let bounds = get_end_of_record-some rs.buffer rs.unconsumed rs.read_end p n in
            subst (λ z. Takes rs z.0 z.1) (some_inj (sym (look_some rs p n) ∙ h))
              (take_record p bounds.0 bounds.1)
      ]

-- Moving the remainder keeps the offsets in bounds and what is held.
pub record Compacted (rs rs' : RecordStream) : Type 0 where
  pub valid : IsValid rs'
  pub same_fd : rs'.fd ≡ rs.fd
  pub same_max : rs'.max_record_len ≡ rs.max_record_len
  pub at_start : rs'.unconsumed ≡ 0
  pub same_held : held rs' ≡ held rs

pub held_size : (rs : RecordStream) → IsValid rs → length (held rs) ≡ rs.read_end - rs.unconsumed
held_size rs v = length-slice rs.buffer rs.unconsumed rs.read_end v.ordered (omega arith)

pub compact-Compacted : (rs : RecordStream) → IsValid rs → Compacted rs (compact rs)
unfolding compact
compact-Compacted rs v = elim (Bool-cases (rs.unconsumed == 0)) [
  | inl e ↦ rw e (record {
    valid = v;
    same_fd = refl;
    same_max = refl;
    at_start = ground arith;
    same_held = refl;
  })
  | inr e ↦ rw e (record {
    valid = record {
      ordered = omega arith;
      within = omega arith;
      allocated =
          length-overwrite rs.buffer 0 (held rs) (omega (arith, held_size rs v)) ∙ v.allocated;
      sized = v.sized;
    };
    same_fd = refl;
    same_max = refl;
    at_start = refl;
    same_held =
        (ap (λ (n : ℕ). slice (overwrite rs.buffer 0 (held rs)) 0 n) {y = 0 + length (held rs)}
            (omega (arith, held_size rs v))
          ∙ slice-overwrite rs.buffer 0 (held rs) (omega arith));
  })
]

-- What was read stands behind what is held, in a stream whose remainder is at the start.
pub record Grown (rs rs' : RecordStream) (bs : Bytes) : Type 0 where
  pub valid : IsValid rs'
  pub more : held rs' ≡ held rs ++ bs

pub grow :
    (rs : RecordStream) (bs : Bytes)
    → IsValid rs
    → rs.unconsumed ≡ 0
    → length bs ≤ rs.buffer_end - rs.read_end
    → Grown rs
        (record rs {
          buffer = overwrite rs.buffer rs.read_end bs;
          read_end = rs.read_end + length bs;
        })
        bs
grow rs bs v z h = record {
  valid = record {
    ordered = omega arith;
    within = omega arith;
    allocated = length-overwrite rs.buffer rs.read_end bs (omega arith) ∙ v.allocated;
    sized = v.sized;
  };
  more = rw z (slice-overwrite rs.buffer rs.read_end bs (omega arith));
}
