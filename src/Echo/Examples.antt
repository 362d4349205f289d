-- ===== src/Echo/Examples.antt =====
-- Runs of the model of echo.
use lmcas.Base.{◌≡◌, refl, true, false, [], ◌∷◌, codes, arith}
use lmcas.Echo.{Outcome, main}
use lmcas.Echo.Laws.{main-escaped, main-joined}

tabs_and_octals :
    main false (codes "-e" ∷ codes "a\\tb\\0101\\x4a" ∷ codes "\\q" ∷ [])
    ≡ Outcome.wrote (codes "a\tbAJ \\q\n")
unfolding main
tabs_and_octals = refl

no_more_output : main true (codes "one\\c" ∷ codes "two" ∷ []) ≡ Outcome.wrote (codes "one")
unfolding main
no_more_output = refl

main-escaped_example :
    main false (codes "-ne" ∷ codes "\\x00\\xff\\x5c" ∷ []) ≡ Outcome.wrote (0 ∷ 255 ∷ 92 ∷ [])
main-escaped_example =
    main-escaped (0 ∷ 255 ∷ 92 ∷ []) (omega arith, (omega arith, (omega arith, tt)))

main-joined_example : main true (codes "a" ∷ codes "-n" ∷ []) ≡ Outcome.wrote (codes "a -n\n")
main-joined_example =
    main-joined true (codes "a") (codes "-n" ∷ []) refl ((refl, tt), ((refl, (refl, tt)), tt))
