-- ===== src/PathResolution/Normal.antt =====
-- The stack that `resolved` composes is in normal form, and nothing is popped from an empty one.
use cpp_temp_learn.Prelude.{
  ℕ, zero, suc, ◌+◌, ◌-◌, Bool, true, false, List, [], ◌∷◌, some, ◌≡◌, ◌≢◌, refl, ap, ◌∙◌, inl, inr,
  arith, Bytes, equal, equal_iff, Bool-cases, ltb, getlines, All,
}
use cpp_temp_learn.FilePath.{slash, is_root}
use cpp_temp_learn.PathResolution.{Resolving, dot, dot_dot, resolve_part, resolve_parts, initial}

-- Below the names stand the '..' that nothing could remove, and the root of an absolute path.
abbrev pub Ups : Bool → List Bytes → Type 0
Ups true [] = ⊥
Ups true (x ∷ []) = is_root x ≡ true
Ups true (x ∷ y ∷ rest) = (x ≡ dot_dot) × Ups true (y ∷ rest)
Ups false [] = Unit
Ups false (x ∷ rest) = (x ≡ dot_dot) × Ups false rest

-- On top stand as many names as may be removed.
abbrev pub Shape : (Bytes → Type 0) → ℕ → Bool → List Bytes → Type 0
Shape P zero absolute stack = Ups absolute stack
Shape P (suc n) absolute [] = ⊥
Shape P (suc n) absolute (x ∷ rest) = P x × Shape P n absolute rest

abbrev pub IsNormal : (Bytes → Type 0) → Resolving → Type 0
IsNormal P r = Shape P r.removable_items r.absolute r.stack

Ups-cons :
    (absolute : Bool) (stack : List Bytes) → Ups absolute stack → Ups absolute (dot_dot ∷ stack)
Ups-cons true [] h = absurd h
Ups-cons true (x ∷ rest) h = (refl, h)
Ups-cons false stack h = (refl, h)

-- What one round gives, as its tests turn out.
round_dot :
    (path : Bytes) (r : Resolving) → equal path dot ≡ true → resolve_part false path r ≡ some r
unfolding resolve_part
round_dot path r e = ground arith

round_pop :
    (path : Bytes) (r : Resolving) (x : Bytes) (rest : List Bytes)
    → equal path dot ≡ false
    → equal path dot_dot ≡ true
    → ltb 0 r.removable_items ≡ true
    → r.stack ≡ x ∷ rest
    → resolve_part false path r
      ≡ some (record r { stack = rest; removable_items = r.removable_items - 1 })
unfolding resolve_part
round_pop path r x rest e d p s = ground arith

round_up :
    (path : Bytes) (r : Resolving)
    → equal path dot ≡ false
    → equal path dot_dot ≡ true
    → ltb 0 r.removable_items ≡ false
    → resolve_part false path r ≡ some (record r { stack = path ∷ r.stack })
unfolding resolve_part
round_up path r e d p = ground arith

round_name :
    (path : Bytes) (r : Resolving)
    → equal path dot ≡ false
    → equal path dot_dot ≡ false
    → resolve_part false path r
      ≡ some (record r { stack = path ∷ r.stack; removable_items = r.removable_items + 1 })
unfolding resolve_part
round_name path r e d = ground arith

-- What one round does to the stack.
pub data Move (path : Bytes) (r : Resolving) : Resolving → Type 0 where
  skip : path ≡ dot → Move path r r
  back :
      (x : Bytes) (rest : List Bytes) (n : ℕ)
      → path ≡ dot_dot
      → r.stack ≡ x ∷ rest
      → r.removable_items ≡ suc n
      → Move path r (record r { stack = rest; removable_items = n })
  up : path ≡ dot_dot → r.removable_items ≡ 0 → Move path r (record r { stack = path ∷ r.stack })
  name :
      path ≢ dot
      → path ≢ dot_dot
      → Move path r (record r { stack = path ∷ r.stack; removable_items = suc r.removable_items })

first_root :
    (path : Bytes)
    → equal path dot ≡ false
    → equal path dot_dot ≡ false
    → is_root path ≡ true
    → resolve_part true path initial
      ≡ some (record { stack = path ∷ []; removable_items = 0; absolute = true })
unfolding resolve_part
first_root path e d o = ground arith

first_name :
    (path : Bytes)
    → equal path dot ≡ false
    → equal path dot_dot ≡ false
    → is_root path ≡ false
    → resolve_part true path initial
      ≡ some (record { stack = path ∷ []; removable_items = 1; absolute = false })
unfolding resolve_part
first_name path e d o = ground arith

module _ (P : Bytes → Type 0) where
  top :
      (n : ℕ) (absolute : Bool) (stack : List Bytes)
      → Shape P (suc n) absolute stack
      → (x : Bytes) × (rest : List Bytes) × (stack ≡ x ∷ rest)
  top n absolute [] h = absurd h
  top n absolute (x ∷ rest) h = (x, rest, refl)

  round_back :
      (path : Bytes) (r : Resolving) (n : ℕ)
      → equal path dot ≡ false
      → equal path dot_dot ≡ true
      → r.removable_items ≡ suc n
      → IsNormal P r
      → (r' : Resolving) × (resolve_part false path r ≡ some r') × Move path r r'
  round_back path r n e d m h =
      let (x, rest, s) = top n r.absolute r.stack (rw m at h) in
      (
        record r { stack = rest; removable_items = n },
        round_pop path r x rest e d (ground arith) s
            ∙ ap (λ k. some (record r { stack = rest; removable_items = k })) (omega arith),
        back x rest n ((equal_iff path dot_dot).0 d) s m,
      )

  -- Every round of a stack in normal form is one of these moves: none pops an empty stack.
  pub round_Move :
      (path : Bytes) (r : Resolving)
      → IsNormal P r
      → (r' : Resolving) × (resolve_part false path r ≡ some r') × Move path r r'
  round_Move path r h = elim (Bool-cases (equal path dot)) [
    | inl e ↦ (r, round_dot path r e, skip ((equal_iff path dot).0 e))
    | inr e ↦ elim (Bool-cases (equal path dot_dot)) [
      | inr d ↦ (
        _,
        round_name path r e d
            ∙ ap (λ (k : ℕ). some (record r { stack = path ∷ r.stack; removable_items = k }))
                (omega arith),
        name (λ q. cc (e, (equal_iff path dot).1 q)) (λ q. cc (d, (equal_iff path dot_dot).1 q)),
      )
      | inl d ↦ elim (Bool-cases (ltb 0 r.removable_items)) [
        | inl p ↦ round_back path r (r.removable_items - 1) e d (ground arith) h
        | inr p ↦ (
          record r { stack = path ∷ r.stack },
          round_up path r e d p,
          up ((equal_iff path dot_dot).0 d) (ground arith),
        )
      ]
    ]
  ]

  pub Move-IsNormal :
      {path : Bytes} {r r' : Resolving}
      → (path ≢ dot → path ≢ dot_dot → P path)
      → Move path r r'
      → IsNormal P r
      → IsNormal P r'
  Move-IsNormal ok (skip e) h = h
  Move-IsNormal {r = r} ok (back x rest n e s m) h =
      let below : P x × Shape P n r.absolute rest = rw (m, s) at h in below.1
  Move-IsNormal {r = r} ok (up e m) h = rw (m, e) (Ups-cons r.absolute r.stack (rw m at h))
  Move-IsNormal ok (name e d) h = (ok e d, h)

  abbrev pub Accepts : Bytes → Type 0
  Accepts path = path ≢ dot → path ≢ dot_dot → P path

  pub resolve_parts-IsNormal :
      (ps : List Bytes) (r : Resolving)
      → All Accepts ps
      → IsNormal P r
      → (r' : Resolving) × (resolve_parts false ps r ≡ some r') × IsNormal P r'
  unfolding resolve_parts
  resolve_parts-IsNormal [] r a h = (r, refl, h)
  resolve_parts-IsNormal (path ∷ ps) r a h =
      let (q, eq, move) = round_Move path r h in
      let (r', eq', h') = resolve_parts-IsNormal ps q a.1 (Move-IsNormal a.0 move h) in
      (r', rw eq eq', h')

-- What the first round does: it starts an absolute path where the sub-path is a root.
pub data First (path : Bytes) : Resolving → Type 0 where
  nothing : path ≡ dot → First path initial
  above : path ≡ dot_dot → First path (record initial { stack = path ∷ [] })
  root :
      is_root path ≡ true
      → First path (record { stack = path ∷ []; removable_items = 0; absolute = true })
  relative :
      path ≢ dot
      → path ≢ dot_dot
      → is_root path ≡ false
      → First path (record { stack = path ∷ []; removable_items = 1; absolute = false })

pub First-round :
    (path : Bytes) → (r : Resolving) × (resolve_part true path initial ≡ some r) × First path r
unfolding resolve_part
First-round path = elim (Bool-cases (equal path dot)) [
  | inl e ↦ let q = (equal_iff path dot).0 e in (initial, rw q, nothing q)
  | inr e ↦ elim (Bool-cases (equal path dot_dot)) [
    | inl d ↦
        let q = (equal_iff path dot_dot).0 d in
        (record initial { stack = path ∷ [] }, rw q, above q)
    | inr d ↦ elim (Bool-cases (is_root path)) [
      | inl o ↦ (_, first_root path e d o, root o)
      | inr o ↦ (
        _,
        first_name path e d o,
        relative (λ q. cc (e, (equal_iff path dot).1 q)) (λ q. cc (d, (equal_iff path dot_dot).1 q))
            o,
      )
    ]
  ]
]

pub First-IsNormal :
    (P : Bytes → Type 0) {path : Bytes} {r : Resolving}
    → (path ≢ dot → path ≢ dot_dot → is_root path ≡ false → P path)
    → First path r
    → IsNormal P r
First-IsNormal P ok (nothing e) = tt
First-IsNormal P ok (above e) = (e, tt)
First-IsNormal P ok (root e) = e
First-IsNormal P ok (relative e d o) = (ok e d o, tt)

-- An item that '..' may remove.
abbrev pub IsName : Bytes → Type 0
IsName path = (path ≢ dot) × (path ≢ dot_dot)

All-names : (ps : List Bytes) → All (Accepts IsName) ps
All-names [] = tt
All-names (p ∷ ps) = ((λ a b. (a, b)), All-names ps)

-- `resolved` never pops an empty stack, and what it composes is in normal form: an absolute path
-- has its root at the bottom, '..' stands only below all names, no item is '.', and the count of
-- removable items is the number of names on top.
pub resolve_parts-getlines :
    (s : Bytes)
    → (r : Resolving) × (resolve_parts true (getlines slash s) initial ≡ some r) × IsNormal IsName r
resolve_parts-getlines s = from (getlines slash s)
  where
    from :
        (ps : List Bytes)
        → (r : Resolving) × (resolve_parts true ps initial ≡ some r) × IsNormal IsName r
    from [] = (initial, unfold resolve_parts in refl, tt)
    from (p ∷ ps) =
        let (q, eq, f) = First-round p in
        let h = First-IsNormal IsName (λ a b _. (a, b)) f in
        let (r, eq', h') = resolve_parts-IsNormal IsName ps q (All-names ps) h in
        (r, unfold resolve_parts in rw eq eq', h')
