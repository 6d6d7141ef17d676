-- ===== src/Sockets/Address.antt =====
-- libsrc/libcutils/socket_local_client_unix.cpp: the address that `socket_make_sockaddr_un` fills in.
use cpp_temp_learn.Prelude.{
  ℕ, zero, suc, ◌+◌, ◌-◌, ◌≤◌, [], ◌∷◌, ◌++◌, some, ◌≡◌, refl, sym, ap, subst, ◌∙◌, inl, inr, arith,
  Bytes, length, length-append, take, take-append_of_length, append_assoc, ltb, ltb→le, ◌==◌,
  Bool-cases, if◌then◌else◌, some_inj,
}
use cpp_temp_learn.Sockets.Local.{
  abstract_space, reserved_space, filesystem_space, reserved_prefix, path_size, path_offset, zeros,
  sun_address, copy_name, make_sockaddr_un,
}

length-zeros : (n : ℕ) → length (zeros n) ≡ n
unfolding zeros
length-zeros zero = refl
length-zeros (suc n) = ap suc (length-zeros n)

-- The address is inside the structure, and its bytes up to its length are a text.
abbrev pub Spells : Bytes → Bytes × ℕ → Type 0
Spells text (path, alen) =
    (length path ≡ path_size)
    × (alen ≤ path_offset + path_size)
    × (take (alen - path_offset) path ≡ text)

-- The texts by the namespaces.
abbrev pub spelling : Bytes → ℕ → Bytes
spelling name namespace =
    if namespace == abstract_space
    then 0 ∷ name
    else if namespace == reserved_space
    then (reserved_prefix ++ name) ++ 0 ∷ []
    else name ++ 0 ∷ []

filled :
    (text : Bytes) (n : ℕ) → length text ≤ path_size → length (sun_address text n).0 ≡ path_size
unfolding sun_address
filled text n h = omega (
  arith,
  h,
  length-append text (zeros (path_size - length text)),
  length-zeros (path_size - length text),
)

-- A text in front of zeros is taken out again by its length.
taken :
    (text : Bytes) (n m : ℕ)
    → n + path_offset + 1 - path_offset ≡ length text
    → take (n + path_offset + 1 - path_offset) (text ++ zeros m) ≡ text
taken text n m e = ap (λ (k : ℕ). take k (text ++ zeros m)) e ∙ take-append_of_length text (zeros m)

zeros_at : (n m : ℕ) → n ≡ suc m → zeros n ≡ 0 ∷ zeros m
unfolding zeros
zeros_at n m e = ap zeros e

abstract-Spells :
    (name : Bytes)
    → length name + 1 ≤ path_size
    → Spells (0 ∷ name) (sun_address (0 ∷ name) (length name))
unfolding sun_address
abstract-Spells name h = (
  filled (0 ∷ name) (length name) (omega (arith, h)),
  omega (arith, h),
  taken (0 ∷ name) (length name) (path_size - length (0 ∷ name)) (omega arith),
)

copied-Spells :
    (text : Bytes)
    → length text ≤ path_size - 1
    → Spells (text ++ 0 ∷ []) (sun_address text (length text))
unfolding sun_address
copied-Spells text h = (
  filled text (length text) (omega (arith, h)),
  omega (arith, h),
  ap (λ z. take (length text + path_offset + 1 - path_offset) (text ++ z))
        (zeros_at (path_size - length text) (path_size - 1 - length text) (omega (arith, h)))
      ∙ ap (take (length text + path_offset + 1 - path_offset))
          (sym (append_assoc text (0 ∷ []) (zeros (path_size - 1 - length text))))
      ∙ taken (text ++ 0 ∷ []) (length text) (path_size - 1 - length text)
          (omega (arith, length-append text (0 ∷ []))),
)

copy_name-Spells :
    (text : Bytes) (r : Bytes × ℕ) → copy_name text ≡ some r → Spells (text ++ 0 ∷ []) r
unfolding copy_name
copy_name-Spells text r h = elim (Bool-cases (ltb (path_size - 1) (length text))) [
  | inl e ↦ absurd (cc (rw (e, copy_name) at h))
  | inr e ↦
      subst (Spells (text ++ 0 ∷ [])) (some_inj (rw (e, copy_name) at h))
        (copied-Spells text (ltb→le (path_size - 1) (length text) e))
]

-- The address that `socket_make_sockaddr_un` makes fits `sockaddr_un`, and the bytes of the path that
-- its length covers are a NUL byte and the name in the abstract namespace, and otherwise the name
-- with a NUL byte behind it, in the reserved namespace with the prefix in front.
pub make_sockaddr_un-Spells :
    (name : Bytes) (namespace : ℕ) (r : Bytes × ℕ)
    → make_sockaddr_un name namespace ≡ some r
    → Spells (spelling name namespace) r
unfolding make_sockaddr_un
make_sockaddr_un-Spells name namespace r h = elim (Bool-cases (namespace == abstract_space)) [
  | inl e ↦ elim (Bool-cases (ltb path_size (length name + 1))) [
    | inl f ↦ absurd (cc (rw (e, f, make_sockaddr_un) at h))
    | inr f ↦
        rw (e, spelling)
          (subst (Spells (0 ∷ name)) (some_inj (rw (e, f, make_sockaddr_un) at h))
            (abstract-Spells name (ltb→le path_size (length name + 1) f)))
  ]
  | inr e ↦ elim (Bool-cases (namespace == reserved_space)) [
    | inl f ↦
        rw (e, f, spelling)
          (copy_name-Spells (reserved_prefix ++ name) r (rw (e, f, make_sockaddr_un) at h))
    | inr f ↦ elim (Bool-cases (namespace == filesystem_space)) [
      | inl g ↦ rw (e, f, spelling) (copy_name-Spells name r (rw (e, f, g, make_sockaddr_un) at h))
      | inr g ↦ absurd (cc (rw (e, f, g, make_sockaddr_un) at h))
    ]
  ]
]
