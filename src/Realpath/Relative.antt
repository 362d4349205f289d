-- ===== src/Realpath/Relative.antt =====
-- process_path prints a relative path only for a file below the base.
use lmcas.Base.{
  Bool, true, [], ◌∷◌, ◌++◌, Option, none, some, Bytes, newline, if◌then◌else◌, ◌≡◌, refl,
  Bool-cases, inl, inr,
}
use lmcas.Realpath.{
  Settings, FileNames, behind_slash, path_prefix, is_outside, printed_name, realpath_canon,
  process_path,
}
use lmcas.Realpath.Laws.{IsUnder, path_prefix_iff}

module _ (gnulib : FileNames) (settings : Settings) (no_links : Bool) where
  outside_base :
      (base can_fname : Bytes)
      → ¬ IsUnder (behind_slash base) (behind_slash can_fname)
      → is_outside gnulib settings no_links (some base) can_fname ≡ true
  unfolding is_outside
  outside_base base can_fname h =
      elim (Bool-cases (path_prefix (behind_slash base) (behind_slash can_fname))) [
        | inl e ↦ absurd (h ((path_prefix_iff (behind_slash base) (behind_slash can_fname)).0 e))
        | inr e ↦ rw e refl
      ]

  name_outside :
      (relative_to : Option Bytes) (base can_fname : Bytes)
      → settings.can_relative_to ≡ relative_to
      → settings.can_relative_base ≡ some base
      → is_outside gnulib settings no_links (some base) can_fname ≡ true
      → printed_name gnulib settings no_links can_fname ≡ can_fname
  unfolding printed_name
  name_outside none base can_fname t b e = rw (printed_name, t) refl
  name_outside (some directory) base can_fname t b e = rw (printed_name, t, b, e) refl

  printed :
      (fname can_fname name : Bytes)
      → realpath_canon gnulib settings no_links fname ≡ some can_fname
      → printed_name gnulib settings no_links can_fname ≡ name
      → process_path gnulib settings no_links fname
        ≡ (name ++ (if settings.use_nuls then 0 ∷ [] else newline ∷ []), true)
  unfolding process_path
  printed fname can_fname name e f = rw (process_path, e, f) refl

  -- With --relative-base, a file whose canonical name is neither the base nor below it is printed
  -- by that name.
  pub process_path-outside :
      (base fname can_fname : Bytes)
      → settings.can_relative_base ≡ some base
      → realpath_canon gnulib settings no_links fname ≡ some can_fname
      → ¬ IsUnder (behind_slash base) (behind_slash can_fname)
      → process_path gnulib settings no_links fname
        ≡ (can_fname ++ (if settings.use_nuls then 0 ∷ [] else newline ∷ []), true)
  process_path-outside base fname can_fname b e h =
      printed fname can_fname can_fname e (
        name_outside settings.can_relative_to base can_fname refl b (outside_base base can_fname h))
