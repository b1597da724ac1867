-- ===== src/Cmdline/Parsing/Pieces.antt =====
-- How the arguments of `Parse` of 3FD/cmdline.cpp are to be read: an account of it in one pass,
-- without the collections, the conditions for a refusal and the fuel of the loop.
use fd.Base.{ℕ, ◌≡◌, Option, none, some, List, [], ◌∷◌, ◌++◌, if◌then◌else◌, ok}
use fd.Cmdline.Types.{
  Text, ArgType, option_switch, option_with_req_value, single_value, values_list, ArgDeclExtended,
  ParsedValue, as_integer, pos, Library, Match, find, CommandLineArguments,
}
use fd.Cmdline.Values.{parse_and_validate_value}
use fd.Cmdline.Parsing.{
  Progress, Looks, unknown, option, value, is_space_separator, val_arg, looks_like,
}

-- A piece of a command line: a switch, an option with the text of its value, or a text that is
-- a value.
pub data Piece : Type 0 where
  switched : ℕ → Piece
  with_text : ℕ → Text → Piece
  plain : Text → Piece

module _ {F : Type 0} (lib : Library F) (c : CommandLineArguments F) where
  -- What an option gives by its own argument.
  unfoldable pub pieces_of_type : ArgType → ℕ → Option Text → List Piece
  pieces_of_type option_switch id t = switched id ∷ []
  pieces_of_type option_with_req_value id none = []
  pieces_of_type option_with_req_value id (some t) =
      if is_space_separator c.arg_val_separator then [] else with_text id t ∷ []
  pieces_of_type single_value id t = []
  pieces_of_type values_list id t = []

  -- The option whose value is the next argument.
  unfoldable pub waiting_of_type : ArgType → ℕ → Option ℕ
  waiting_of_type option_with_req_value id =
      if is_space_separator c.arg_val_separator then some id else none
  waiting_of_type _ id = none

  unfoldable pub pieces_declared : ℕ → Match → Option (ArgDeclExtended F) → List Piece
  pieces_declared id m none = []
  pieces_declared id m (some e) = pieces_of_type e.common.type id m.value

  unfoldable pub waiting_declared : ℕ → Option (ArgDeclExtended F) → Option ℕ
  waiting_declared id none = none
  waiting_declared id (some e) = waiting_of_type e.common.type id

  unfoldable pub pieces_of : Looks → Text → List Piece
  pieces_of unknown arg = []
  pieces_of (option id m) arg = pieces_declared id m (find id c.expected_args)
  pieces_of value arg = plain arg ∷ []

  unfoldable pub waiting_of : Looks → Option ℕ
  waiting_of unknown = none
  waiting_of (option id m) = waiting_declared id (find id c.expected_args)
  waiting_of value = none

  -- The pieces of the arguments, behind an option that waits for its value or not.
  unfoldable pub pieces : Option ℕ → List Text → List Piece
  pieces waiting [] = []
  pieces (some id) (arg ∷ rest) = with_text id arg ∷ pieces none rest
  pieces none (arg ∷ rest) =
      pieces_of (looks_like lib c arg) arg ++ pieces (waiting_of (looks_like lib c arg)) rest

  abbrev pub with_option : ℕ → ParsedValue F → Progress F → Progress F
  with_option id pv p = record p { parsed_opt_vals = (id, pv) ∷ p.parsed_opt_vals }

  -- What a piece does to the collections.
  abbrev pub Takes : Piece → Progress F → Progress F → Type 0
  Takes (switched id) p p' =
      (e : ArgDeclExtended F) × (find id c.expected_args ≡ some e)
      × (e.common.type ≡ option_switch)
      × (p' ≡ with_option id (as_integer (pos 0)) p)
  Takes (with_text id t) p p' =
      (e : ArgDeclExtended F) × (pv : ParsedValue F) × (find id c.expected_args ≡ some e)
      × (parse_and_validate_value lib e.common e.typed_ext_info t ≡ ok (some pv))
      × (p' ≡ with_option id pv p)
  Takes (plain t) p p' =
      (e : ArgDeclExtended F) × (pv : ParsedValue F) × (val_arg lib c ≡ some e)
      × (parse_and_validate_value lib e.common e.typed_ext_info t ≡ ok (some pv))
      × (p' ≡ record p { parsed_val_args = p.parsed_val_args ++ pv ∷ [] })

  abbrev pub TakesAll : List Piece → Progress F → Progress F → Type 0
  TakesAll [] p q = q ≡ p
  TakesAll (g ∷ gs) p q = (p' : Progress F) × Takes g p p' × TakesAll gs p' q

  -- One step of the loop takes the first of the pieces `gs`.
  abbrev pub Advances : List Piece → Progress F → List Text → Progress F → Type 0
  Advances gs p rest' p' = (g : Piece) × Takes g p p' × (gs ≡ g ∷ pieces none rest')

-- The texts that are values, in order.
abbrev pub value_texts : List Piece → List Text
value_texts [] = []
value_texts (switched id ∷ gs) = value_texts gs
value_texts (with_text id t ∷ gs) = value_texts gs
value_texts (plain t ∷ gs) = t ∷ value_texts gs
