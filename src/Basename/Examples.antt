-- ===== src/Basename/Examples.antt =====
-- Runs of the model of basename.
use lmcas.Base.{◌≡◌, ◌≢◌, ◌⊎◌, refl, Bytes, codes, [], ◌++◌}
use lmcas.Basename.{remove_suffix}
use lmcas.Basename.Laws.{remove_suffix_cases}

suffix_removed : remove_suffix (codes "echo.c") (codes ".c") ≡ codes "echo"
unfolding remove_suffix
suffix_removed = refl

whole_name : remove_suffix (codes ".c") (codes ".c") ≡ codes ".c"
unfolding remove_suffix
whole_name = refl

remove_suffix_cases_example :
    ((front : Bytes) × (front ≢ [])
      × (codes "echo.c" ≡ front ++ codes ".c")
      × (remove_suffix (codes "echo.c") (codes ".c") ≡ front))
    ⊎ ((remove_suffix (codes "echo.c") (codes ".c") ≡ codes "echo.c")
        × ((front : Bytes) → front ≢ [] → codes "echo.c" ≢ front ++ codes ".c"))
remove_suffix_cases_example = remove_suffix_cases (codes "echo.c") (codes ".c")
