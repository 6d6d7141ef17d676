-- ===== src/PathResolution/Text.antt =====
-- The text that `resolved` composes from the stack, and where it leads.
use cpp_temp_learn.Prelude.{
  ℕ, zero, suc, Bool, true, false, List, [], ◌∷◌, reverse, some, ◌>>=◌, ◌≡◌, ◌≢◌, refl, ap, ◌∙◌,
  ◌⊎◌, inl, inr, arith, Bytes, is_empty, equal_iff, getlines, getlines-append, getlines-Lacks,
  getlines-Lacks_self, Lacks, All, if◌then◌else◌, append-nil,
}
use cpp_temp_learn.FilePath.{slash, is_root}
use cpp_temp_learn.PathResolution.{
  Resolving, dot, dot_dot, resolve_parts, initial, compose, resolved,
}
use cpp_temp_learn.PathResolution.Normal.{Shape, IsName}
use cpp_temp_learn.PathResolution.Walk.{
  Location, enter, walk, walk_parts, walk_path, NotRoot, IsPlain, IsPlainName, follow, enter-dot,
}
use cpp_temp_learn.PathResolution.Result.{resolve_parts-Resolves}

NotRoot-ne_nil : (p : Bytes) → NotRoot p → p ≢ []
unfolding is_root
NotRoot-ne_nil [] h e = cc h
NotRoot-ne_nil (c ∷ p) h e = cc e

NotRoot-of_up : {x : Bytes} → x ≡ dot_dot → NotRoot x
unfolding is_root
NotRoot-of_up e = rw e

-- Composed sub-paths are read back, if none is empty behind the first.
getlines-compose :
    (b : Bool) (p : Bytes) (ps : List Bytes)
    → All (Lacks slash) (p ∷ ps)
    → All NotRoot ps
    → (b ≡ true) ⊎ (p ≢ [])
    → getlines slash (compose b (p ∷ ps)) ≡ p ∷ ps
unfolding compose
getlines-compose true p [] h k e = getlines-append slash p [] h.0 ∙ unfold getlines in refl
getlines-compose false p [] h k (inl e) = cc e
getlines-compose false p [] h k (inr e) = rw append-nil (getlines-Lacks_self slash p h.0 e)
getlines-compose b p (q ∷ qs) h k e =
    getlines-append slash p (compose false (q ∷ qs)) h.0
    ∙ ap (◌∷◌ p) (getlines-compose false q qs h.1 k.1 (inr (NotRoot-ne_nil q k.0)))

-- What lies under the top of a stack of several items is in normal form too.
under :
    (n : ℕ) (absolute : Bool) (x y : Bytes) (rest : List Bytes)
    → Shape IsPlainName n absolute (x ∷ y ∷ rest)
    → NotRoot x × ((m : ℕ) × Shape IsPlainName m absolute (y ∷ rest))
under zero true x y rest h = (NotRoot-of_up h.0, (0, h.1))
under zero false x y rest h = (NotRoot-of_up h.0, (0, h.1))
under (suc n) absolute x y rest h = (h.0.2, (n, h.1))

bottom : (n : ℕ) (x : Bytes) → Shape IsPlainName n false (x ∷ []) → NotRoot x
bottom zero x h = NotRoot-of_up h.0
bottom (suc n) x h = h.0.2

root_of : (n : ℕ) (x : Bytes) → Shape IsPlainName n true (x ∷ []) → is_root x ≡ true
root_of zero x h = h
root_of (suc zero) x h = absurd h.1
root_of (suc (suc n)) x h = absurd h.1

follow_two :
    (absolute : Bool) (x y : Bytes) (rest : List Bytes) (l : Location)
    → enter x (follow absolute (y ∷ rest) l) ≡ follow absolute (x ∷ y ∷ rest) l
follow_two true x y rest l = refl
follow_two false x y rest l = refl

-- The stack from the bottom up, with `above` on top: its text is read back, and leads on.
record Unwound (absolute : Bool) (stack above : List Bytes) (l : Location) : Type 0 where
  first : Bytes
  later : List Bytes
  same : mathlib.Core.List.reverse_aux stack above ≡ first ∷ later
  reads : getlines slash (compose absolute (first ∷ later)) ≡ first ∷ later
  leads : walk_parts (first ∷ later) l ≡ walk above (follow absolute stack l)

unwind :
    (n : ℕ) (absolute : Bool) (x : Bytes) (rest above : List Bytes) (l : Location)
    → Shape IsPlainName n absolute (x ∷ rest)
    → All (Lacks slash) (x ∷ rest)
    → All (Lacks slash) above
    → All NotRoot above
    → Unwound absolute (x ∷ rest) above l
unwind n true x [] above l h k a b =
    let is = root_of n x h in
    record {
      first = x;
      later = above;
      same = refl;
      reads = getlines-compose true x above (k.0, a) b (inl refl);
      leads = rw is;
    }
unwind n false x [] above l h k a b =
    let plain = bottom n x h in
    record {
      first = x;
      later = above;
      same = refl;
      reads = getlines-compose false x above (k.0, a) b (inr (NotRoot-ne_nil x plain));
      leads = rw plain;
    }
unwind n absolute x (y ∷ rest) above l h k a b =
    let (plain, (m, h')) = under n absolute x y rest h in
    let u = unwind m absolute y rest (x ∷ above) l h' k.1 (k.0, a) (plain, b) in
    record {
      first = u.first;
      later = u.later;
      same = u.same;
      reads = u.reads;
      leads = u.leads ∙ ap (walk above) (follow_two absolute x y rest l);
    }

-- The result for a stack in normal form.
abbrev text_of : Bool → List Bytes → Bytes
text_of absolute parts = let text = compose absolute parts in if is_empty text then dot else text

abbrev pub result : Resolving → Bytes
result r = text_of r.absolute (reverse r.stack)

keep :
    (t : Bytes) {p : Bytes} {ps : List Bytes}
    → getlines slash t ≡ p ∷ ps
    → (if is_empty t then dot else t) ≡ t
unfolding getlines
keep [] h = cc h
keep (c ∷ t) h = refl

pub resolved-of_run :
    (s : Bytes) (r : Resolving)
    → resolve_parts true (getlines slash s) initial ≡ some r
    → resolved s ≡ some (result r)
unfolding resolved
resolved-of_run s r h = ap (λ m. m >>= λ q. some (result q)) h

walk-dot : (l : Location) → walk_path dot l ≡ l
unfolding getlines is_root
walk-dot l = enter-dot l

not_absolute : (n : ℕ) (absolute : Bool) → Shape IsPlainName n absolute [] → absolute ≡ false
not_absolute zero true h = absurd h
not_absolute zero false h = refl
not_absolute (suc n) absolute h = absurd h

walk-result :
    (n : ℕ) (absolute : Bool) (stack : List Bytes) (l : Location)
    → Shape IsPlainName n absolute stack
    → All (Lacks slash) stack
    → walk_path (text_of absolute (reverse stack)) l ≡ follow absolute stack l
walk-result n absolute [] l h k = rw (not_absolute n absolute h) (unfold compose in walk-dot l)
walk-result n absolute (x ∷ rest) l h k =
    let u = unwind n absolute x rest [] l h k tt tt in
    (ap (λ parts. walk_path (text_of absolute parts) l) u.same
      ∙ ap (λ t. walk_path t l) (keep (compose absolute (u.first ∷ u.later)) u.reads)
      ∙ ap (λ parts. walk_parts parts l) u.reads
      ∙ u.leads)

-- `resolved` returns a text that leads from every directory to where the path itself leads, where
-- no sub-path after the first is empty or a drive and the file system has no symbolic links.
pub walk-resolved :
    (s : Bytes) (l : Location)
    → IsPlain (getlines slash s)
    → (t : Bytes) × (resolved s ≡ some t) × (walk_path t l ≡ walk_path s l)
walk-resolved s l h =
    let run = resolve_parts-Resolves (getlines slash s) l h (getlines-Lacks slash s) in
    let r = run.final in
    (
      result r,
      resolved-of_run s r run.runs,
      walk-result r.removable_items r.absolute r.stack l run.normal run.plain ∙ run.leads,
    )

dot-Lacks : ◌≢◌ {A = ℕ} b'.' slash
dot-Lacks = omega arith

dot_empty_run :
    (name : Bytes)
    → IsName name
    → resolve_parts true (dot ∷ [] ∷ name ∷ []) initial
      ≡ some (record { stack = name ∷ [] ∷ []; removable_items = 2; absolute = false })
unfolding resolve_parts
dot_empty_run name is = ground (arith, equal_iff name dot, equal_iff name dot_dot)

-- ".//" in front of a sub-path: resolving drops the '.', and the empty sub-path behind it is
-- then the first, so that the result is an absolute path.
pub resolved-dot_empty :
    (name : Bytes)
    → Lacks slash name
    → name ≢ []
    → IsName name
    → resolved (b'.' ∷ slash ∷ slash ∷ name) ≡ some (slash ∷ name)
unfolding compose
resolved-dot_empty name plain ne is =
    let parts : getlines slash (b'.' ∷ slash ∷ slash ∷ name) ≡ dot ∷ [] ∷ name ∷ [] =
      getlines-append slash dot (slash ∷ name) (dot-Lacks, tt)
      ∙ ap (◌∷◌ dot) (
          getlines-append slash [] name tt
          ∙ ap (◌∷◌ []) (getlines-Lacks_self slash name plain ne)) in
    let r : Resolving = record { stack = name ∷ [] ∷ []; removable_items = 2; absolute = false } in
    resolved-of_run (b'.' ∷ slash ∷ slash ∷ name) r (rw parts (dot_empty_run name is))
    ∙ ap (λ t. some (slash ∷ t)) (append-nil name)
