-- ===== src/PathResolution/Result.antt =====
-- The text that `resolved` returns leads where the path leads.
use cpp_temp_learn.Prelude.{
  true, List, [], ◌∷◌, some, ◌≡◌, refl, ap, ◌∙◌, arith, Bytes, equal, Lacks, All,
}
use cpp_temp_learn.FilePath.{slash, is_root}
use cpp_temp_learn.PathResolution.{Resolving, resolve_parts, initial}
use cpp_temp_learn.PathResolution.Normal.{
  IsNormal, First, nothing, above, root, relative, First-round, First-IsNormal,
}
use cpp_temp_learn.PathResolution.Walk.{
  Location, walk, walk_parts, IsPlain, IsPlainName, follow, resolve_parts-Reaches,
}

First-follow :
    {path : Bytes} {r : Resolving} (l : Location)
    → First path r
    → follow r.absolute r.stack l ≡ walk_parts (path ∷ []) l
unfolding is_root equal
First-follow l (nothing e) = rw e
First-follow l (above e) = rw e
First-follow l (root e) = rw e
First-follow l (relative e d o) = rw o

First-Lacks :
    {path : Bytes} {r : Resolving} → First path r → Lacks slash path → All (Lacks slash) r.stack
First-Lacks (nothing e) h = tt
First-Lacks (above e) h = (h, tt)
First-Lacks (root e) h = (h, tt)
First-Lacks (relative e d o) h = (h, tt)

walk_parts-cons :
    (p : Bytes) (ps : List Bytes) (l : Location)
    → walk ps (walk_parts (p ∷ []) l) ≡ walk_parts (p ∷ ps) l
walk_parts-cons p ps l = ground arith

-- All the loop, from the start.
pub record Resolves (ps : List Bytes) (l : Location) : Type 0 where
  pub final : Resolving
  pub runs : resolve_parts true ps initial ≡ some final
  pub normal : IsNormal IsPlainName final
  pub leads : follow final.absolute final.stack l ≡ walk_parts ps l
  pub plain : All (Lacks slash) final.stack

pub resolve_parts-Resolves :
    (ps : List Bytes) (l : Location) → IsPlain ps → All (Lacks slash) ps → Resolves ps l
unfolding resolve_parts
resolve_parts-Resolves [] l a b = record {
  final = initial;
  runs = refl;
  normal = tt;
  leads = refl;
  plain = tt;
}
resolve_parts-Resolves (p ∷ ps) l a b =
    let (q, eq, f) = First-round p in
    let h = First-IsNormal IsPlainName (λ x y z. (x, y, z)) f in
    let rest = resolve_parts-Reaches ps q l a b.1 h (First-Lacks f b.0) in
    record {
      final = rest.final;
      runs = rw eq rest.runs;
      normal = rest.normal;
      leads = rest.leads ∙ ap (walk ps) (First-follow l f) ∙ walk_parts-cons p ps l;
      plain = rest.plain;
    }
