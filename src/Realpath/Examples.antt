-- ===== src/Realpath/Examples.antt =====
-- Runs of the model of realpath.
use lmcas.Base.{ℕ, Bytes, [], ◌∷◌, ap, arith, ◌≡◌, ◌↔◌, refl, true, false, some, codes, inl, inr}
use lmcas.Realpath.{Settings, FileNames, behind_slash, path_prefix, realpath_canon, process_path}
use lmcas.Realpath.Laws.{IsUnder, path_prefix_iff}
use lmcas.Realpath.Relative.{process_path-outside}

below : path_prefix (codes "usr") (codes "usr/lib") ≡ true
unfolding path_prefix
below = refl

beside : path_prefix (codes "usr") (codes "usrlib") ≡ false
unfolding path_prefix
beside = refl

path_prefix_iff_example :
    (path_prefix (codes "usr") (codes "usr/lib") ≡ true) ↔ IsUnder (codes "usr") (codes "usr/lib")
path_prefix_iff_example = path_prefix_iff (codes "usr") (codes "usr/lib")

-- Names that are canonical already, and one relative path.
abbrev names : FileNames
names = record {
  canonicalize = λ no_links fname. some fname;
  relpath = λ fname directory. some (codes "lib");
}

abbrev below_usr : Settings
below_usr = record {
  verbose = true;
  logical = false;
  use_nuls = false;
  can_relative_to = some (codes "/usr");
  can_relative_base = some (codes "/usr");
}

relative : process_path names below_usr false (codes "/usr/lib") ≡ (codes "lib\n", true)
unfolding process_path
relative = refl

canonical : realpath_canon names below_usr false (codes "/etc") ≡ some (codes "/etc")
unfolding realpath_canon
canonical = refl

abbrev first_byte : Bytes → ℕ
first_byte [] = 0
first_byte (c ∷ path) = c

not-IsUnder : ¬ IsUnder (behind_slash (codes "/usr")) (behind_slash (codes "/etc"))
not-IsUnder (inl e) = omega (arith, ap first_byte e)
not-IsUnder (inr (others, e)) = omega (arith, ap first_byte e)

process_path-outside_example :
    process_path names below_usr false (codes "/etc") ≡ (codes "/etc\n", true)
process_path-outside_example =
    process_path-outside names below_usr false (codes "/usr") (codes "/etc") (codes "/etc") refl
      canonical not-IsUnder
