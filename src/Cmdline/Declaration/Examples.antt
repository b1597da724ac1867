-- ===== src/Cmdline/Declaration/Examples.antt =====
-- Declarations of arguments in 3FD/cmdline.cpp.
use fd.Base.{ℕ, true, false, List, [], ◌∷◌}
use fd.Cmdline.Types.{pos, equal_sign, new_command_line_arguments}
use fd.Cmdline.Declaration.Consistent.{AllFit}
use fd.Cmdline.Declaration.Kept.{Call, with_integers, with_counts, run_calls, run_calls-AllFit}
use fd.Cmdline.Sample.{sample_library, level, numbers}

-- The second call throws, for its bounds are not in order.
abbrev pub sample_calls : List (Call ℕ)
sample_calls =
    with_counts numbers (1 ∷ 2 ∷ [])
    ∷ with_integers level (pos 20 ∷ pos 2 ∷ [])
    ∷ with_integers level (pos 2 ∷ pos 20 ∷ [])
    ∷ []

run_calls-AllFit_example :
    AllFit sample_library
      (run_calls sample_library
        (new_command_line_arguments 80 equal_sign false true)
        sample_calls).expected_args
run_calls-AllFit_example = run_calls-AllFit sample_library 80 equal_sign false true sample_calls
