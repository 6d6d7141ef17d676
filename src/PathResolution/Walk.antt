-- ===== src/PathResolution/Walk.antt =====
-- Where a resolved path leads, in a file system with no symbolic links.
use cpp_temp_learn.Prelude.{
  ℕ, zero, suc, Bool, true, false, List, [], ◌∷◌, some, ◌≡◌, ◌≢◌, refl, sym, ap, ◌∙◌, arith, Bytes,
  equal, equal_iff, is_empty, getlines, Lacks, All, ◌||◌, if◌then◌else◌,
}
use cpp_temp_learn.FilePath.{slash, is_root}
use cpp_temp_learn.PathResolution.{Resolving, dot, dot_dot, resolve_parts}
use cpp_temp_learn.PathResolution.Normal.{
  Shape, IsNormal, Move, skip, back, up, name, round_Move, Move-IsNormal, Accepts,
}

-- A directory is the names that lead to it from the root, the innermost first.
abbrev pub Location : Type 0
Location = List Bytes

abbrev pub parent : Location → Location
parent [] = []
parent (x ∷ l) = l

-- One sub-path: "" and "." stay, ".." goes to the parent, and the root is its own parent.
abbrev pub enter : Bytes → Location → Location
enter p l = if is_empty p || equal p dot then l else if equal p dot_dot then parent l else p ∷ l

abbrev pub walk : List Bytes → Location → Location
walk [] l = l
walk (p ∷ ps) l = walk ps (enter p l)

-- An absolute path starts at the root.
abbrev pub walk_parts : List Bytes → Location → Location
walk_parts [] l = l
walk_parts (p ∷ ps) l = if is_root p then walk ps [] else walk (p ∷ ps) l

abbrev pub walk_path : Bytes → Location → Location
walk_path s = walk_parts (getlines slash s)

abbrev pub NotRoot : Bytes → Type 0
NotRoot p = is_root p ≡ false

-- No sub-path after the first is empty or a drive.
abbrev pub IsPlain : List Bytes → Type 0
IsPlain [] = Unit
IsPlain (p ∷ ps) = All NotRoot ps

abbrev pub IsPlainName : Bytes → Type 0
IsPlainName p = (p ≢ dot) × (p ≢ dot_dot) × NotRoot p

-- Where the stack leads.
abbrev pub follow : Bool → List Bytes → Location → Location
follow true [] l = l
follow true (x ∷ []) l = []
follow true (x ∷ y ∷ rest) l = enter x (follow true (y ∷ rest) l)
follow false [] l = l
follow false (x ∷ rest) l = enter x (follow false rest l)

NotRoot-ne_nil : (p : Bytes) → NotRoot p → is_empty p ≡ false
unfolding is_root
NotRoot-ne_nil [] h = cc h
NotRoot-ne_nil (c ∷ p) h = refl

pub enter-dot : (l : Location) → enter dot l ≡ l
unfolding equal
enter-dot l = refl

enter_up : (l : Location) → enter dot_dot l ≡ parent l
unfolding equal
enter_up l = refl

enter_name : (p : Bytes) (l : Location) → IsPlainName p → enter p l ≡ p ∷ l
enter_name p l h = ground (arith, NotRoot-ne_nil p h.2, equal_iff p dot, equal_iff p dot_dot)

follow-cons :
    (n : ℕ) (absolute : Bool) (x : Bytes) (stack : List Bytes) (l : Location)
    → Shape IsPlainName n absolute stack
    → follow absolute (x ∷ stack) l ≡ enter x (follow absolute stack l)
follow-cons zero true x [] l h = absurd h
follow-cons (suc n) true x [] l h = absurd h
follow-cons n true x (y ∷ stack) l h = refl
follow-cons n false x stack l h = refl

Move-follow :
    {path : Bytes} {r r' : Resolving} (l : Location)
    → Move path r r'
    → IsNormal IsPlainName r
    → follow r'.absolute r'.stack l ≡ enter path (follow r.absolute r.stack l)
Move-follow {r = r} l (skip e) h = rw e (sym (enter-dot (follow r.absolute r.stack l)))
Move-follow {r = r} l (back x rest n e s m) h =
    let below : IsPlainName x × Shape IsPlainName n r.absolute rest = rw (m, s) at h in
    let under = follow r.absolute rest l in
    rw (e, s)
      (sym (
        enter_up (follow r.absolute (x ∷ rest) l)
        ∙ ap parent (follow-cons n r.absolute x rest l below.1 ∙ enter_name x under below.0)))
Move-follow {r = r} l (up e m) h = follow-cons r.removable_items r.absolute _ r.stack l h
Move-follow {r = r} l (name e d) h = follow-cons r.removable_items r.absolute _ r.stack l h

accepts : (ps : List Bytes) → All NotRoot ps → All (Accepts IsPlainName) ps
accepts [] h = tt
accepts (p ∷ ps) h = ((λ a b. (a, b, h.0)), accepts ps h.1)

-- What the loop reaches from a stack in normal form.
pub record Reaches (ps : List Bytes) (r : Resolving) (l : Location) : Type 0 where
  pub final : Resolving
  pub runs : resolve_parts false ps r ≡ some final
  pub normal : IsNormal IsPlainName final
  pub leads : follow final.absolute final.stack l ≡ walk ps (follow r.absolute r.stack l)
  pub plain : All (Lacks slash) final.stack

Move-Lacks :
    {path : Bytes} {r r' : Resolving}
    → Move path r r'
    → Lacks slash path
    → All (Lacks slash) r.stack
    → All (Lacks slash) r'.stack
Move-Lacks (skip e) p h = h
Move-Lacks (back x rest n e s m) p h = let both : All (Lacks slash) (x ∷ rest) = rw s at h in both.1
Move-Lacks (up e m) p h = (p, h)
Move-Lacks (name e d) p h = (p, h)

pub resolve_parts-Reaches :
    (ps : List Bytes) (r : Resolving) (l : Location)
    → All NotRoot ps
    → All (Lacks slash) ps
    → IsNormal IsPlainName r
    → All (Lacks slash) r.stack
    → Reaches ps r l
unfolding resolve_parts
resolve_parts-Reaches [] r l a b h k = record {
  final = r;
  runs = refl;
  normal = h;
  leads = refl;
  plain = k;
}
resolve_parts-Reaches (p ∷ ps) r l a b h k =
    let (q, eq, move) = round_Move IsPlainName p r h in
    let h' = Move-IsNormal IsPlainName (λ x y. (x, y, a.0)) move h in
    let rest = resolve_parts-Reaches ps q l a.1 b.1 h' (Move-Lacks move b.0 k) in
    record {
      final = rest.final;
      runs = rw eq rest.runs;
      normal = rest.normal;
      leads = rest.leads ∙ ap (walk ps) (Move-follow l move h);
      plain = rest.plain;
    }
