-- ===== src/FileLoading/Closing.antt =====
-- libsrc/libcutils/load_file.cpp: the descriptor is closed, and the block is as long as it should be.
use cpp_temp_learn.Prelude.{
  if-both, ℕ, suc, not, List, [], ◌∷◌, ◌++◌, Option, none, some, ◌≡◌, refl, ap, ◌∙◌, inl, inr,
  Bytes, length, ◌==◌, ==_iff, Bool-cases,
}
use cpp_temp_learn.FileLoading.{
  LoadOs, to_int, judge_read, judge_start, judge_int, judge_end, load_opened, load_file,
}

-- The block holds as many bytes as `*_sz` says, and a NUL byte behind them.
abbrev pub Loaded : Option (Bytes × ℕ) → Type 0
Loaded none = Unit
Loaded (some (block, sz)) = (bytes : Bytes) × (block ≡ bytes ++ 0 ∷ []) × (length bytes ≡ sz)

module _ {World : Type 0} (os : LoadOs World) where
  open os use {
    opened, open_read, seek_end, seek_start, malloc, read, close, open_opens, open_fails,
    seek_end_keeps, seek_start_keeps, read_keeps, close_closes,
  }

  -- Nothing is open but what was, and the block is as it should be.
  abbrev pub Done : List ℕ → World × Option (Bytes × ℕ) → Type 0
  Done base (w, r) = (opened w ≡ base) × Loaded r

  module _ (base : List ℕ) (fd : ℕ) where
    fails : (w : World) → opened w ≡ fd ∷ base → Done base (close w fd, none)
    fails w h = (close_closes w fd base h, tt)

    judge_read-Done :
        (sz : ℕ) (w : World) (r : Option Bytes)
        → opened w ≡ fd ∷ base
        → Done base (judge_read os fd sz w r)
    unfolding judge_read
    judge_read-Done sz w none h = fails w h
    judge_read-Done sz w (some bytes) h = elim (Bool-cases (length bytes == sz)) [
      | inl e ↦ rw (e, judge_read) (close_closes w fd base h, (bytes, refl, (==_iff _ _).0 e))
      | inr e ↦ rw (e, judge_read) (fails w h)
    ]

    judge_start-Done :
        (sz : ℕ) (w : World) (r : Option ℕ)
        → opened w ≡ fd ∷ base
        → Done base (judge_start os fd sz w r)
    unfolding judge_start
    judge_start-Done sz w none h = fails w h
    judge_start-Done sz w (some offset) h =
        if-both (Done base) (not (offset == 0)) _ _ (fails w h) (
          if-both (Done base) (malloc (suc sz)) _ _
            (judge_read-Done sz _ (read w fd sz).1 (read_keeps w fd sz ∙ h)) (fails w h))

    judge_int-Done :
        (w : World) (r : Option ℕ) → opened w ≡ fd ∷ base → Done base (judge_int os fd w r)
    unfolding judge_int
    judge_int-Done w none h = fails w h
    judge_int-Done w (some sz) h =
        judge_start-Done sz _ (seek_start w fd).1 (seek_start_keeps w fd ∙ h)

    judge_end-Done :
        (w : World) (r : Option ℕ) → opened w ≡ fd ∷ base → Done base (judge_end os fd w r)
    unfolding judge_end
    judge_end-Done w none h = fails w h
    judge_end-Done w (some size) h = judge_int-Done w (to_int size) h

  load_opened-Done :
      (base : List ℕ) (w : World) (fd : ℕ)
      → opened w ≡ fd ∷ base
      → Done base (load_opened os w (some fd))
  unfolding load_opened
  load_opened-Done base w fd h =
      judge_end-Done base fd _ (seek_end w fd).1 (seek_end_keeps w fd ∙ h)

  -- However `load_file` ends, the descriptor that it opened is closed; and a block that it returns
  -- holds as many bytes as it says, with a NUL byte behind them.
  pub load_file-Done : (path : Bytes) (w : World) → Done (opened w) (load_file os path w)
  unfolding load_file
  load_file-Done path w = given (open_read w path).1 refl
    where
      given :
          (r : Option ℕ)
          → (open_read w path).1 ≡ r
          → Done (opened w) (load_opened os (open_read w path).0 r)
      given none e = (open_fails w _ path (ap (λ r. ((open_read w path).0, r)) e), tt)
      given (some fd) e =
          load_opened-Done (opened w) _ fd
            (open_opens w _ path fd (ap (λ r. ((open_read w path).0, r)) e))
