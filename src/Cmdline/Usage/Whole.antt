-- ===== src/Cmdline/Usage/Whole.antt =====
-- `PrintArgsInfo` of 3FD/cmdline.cpp as a whole.
use fd.Base.{
  ℕ, ◌≡◌, ◌≤◌, ltb, Bool, false, [], ◌∷◌, ◌++◌, if◌then◌else◌, ok, stop, Run, Returns,
  runtime_error, ◌⊎◌, ◌+◌,
}
use fd.Cmdline.Types.{Text, ArgDeclExtended, Library, Map, find, CommandLineArguments}
use fd.Cmdline.Declaration.{text_of}
use fd.Cmdline.Declaration.Consistent.{CfgFits}
use fd.Cmdline.Paragraph.Bounds.{ink}
use fd.Cmdline.Usage.{
  Stream, print_config, n_spaces_adv_col2, width_table_col2, char_column, name_column, by_id,
  print_args_info,
}
use fd.Cmdline.Usage.Sorted.{Ascending}

-- What a run wrote, when it returned.
abbrev pub written : Run Text → Text
written (ok t) = t
written (stop e) = []

-- There is no memory for some buffer, or what comes out has the ink of a text.
abbrev pub Shows : {F : Type 0} → Library F → (ℕ → Bool) → Run Text → Text → Type 0
Shows lib alloc run text =
    ((run ≡ stop runtime_error) × (size : ℕ) × (alloc size ≡ false))
    ⊎ (Returns run λ t. ink lib.is_space t ≡ ink lib.is_space text)

module _ {F : Type 0} (lib : Library F) (stream : Stream F) where
  abbrev EntriesFit : Map ℕ (ArgDeclExtended F) → Type 0
  EntriesFit [] = Unit
  EntriesFit ((id, e) ∷ m) = CfgFits lib e × EntriesFit m

  module _ (c : CommandLineArguments F) where
    -- What an entry says: the labels, the description, and what the configuration allows.
    abbrev pub entry_text : ArgDeclExtended F → Text
    entry_text e =
        (char_column lib stream c e.common ++ name_column lib stream c e.common)
        ++ (text_of e.common.description
            ++ written (print_config lib stream e.common e.typed_ext_info))

    abbrev pub listing : Map ℕ (ArgDeclExtended F) → Text
    listing [] = []
    listing ((id, e) ∷ m) = entry_text e ++ listing m

    -- The columns fit into the line, and the listing of the declared arguments by their ids is printed
    -- unless memory runs out.
    abbrev pub PrintsAll : (ℕ → Bool) → ℕ → Type 0
    PrintsAll alloc width =
        Ascending lib stream c (by_id lib stream c c.expected_args)
        × ((id : ℕ) → find id (by_id lib stream c c.expected_args) ≡ find id c.expected_args)
        × (44 ≤ width_table_col2 lib stream c)
        × (n_spaces_adv_col2 lib stream c + width_table_col2 lib stream c
            ≡ (if ltb 80 width then width else 80))
        × Shows lib alloc (print_args_info lib stream c alloc)
            (listing (by_id lib stream c c.expected_args))
