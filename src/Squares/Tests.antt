-- ===== src/Squares/Tests.antt =====
-- 6.1.c run.
use textbooks.Base.{◌≡◌, refl, List, [], ◌∷◌, ok, exit, fault}
use textbooks.Base.Int.{pos, negsuc}
use textbooks.Squares.Defs.{Line, the_square, the_cube, square, do_calc, main}
use textbooks.Squares.Bounds.{do_calc-bounds}

abbrev nothing : List Line
nothing = []

of_9973 : main nothing ≡ exit 0 (the_square (pos 9973) (pos 99460729) ∷ [])
unfolding main do_calc square
of_9973 = refl

too_large : do_calc (pos 46341) nothing ≡ fault
unfolding do_calc square
too_large = refl

do_calc-bounds_example :
    do_calc (negsuc 4) nothing
    ≡ ok tt (the_square (negsuc 4) (pos 25) ∷ (the_cube (negsuc 4) (negsuc 124) ∷ []))
do_calc-bounds_example = do_calc-bounds (negsuc 4) nothing
