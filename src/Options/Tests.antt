-- ===== src/Options/Tests.antt =====
-- The results of this part at concrete command lines.
use turf.Prelude.{true, false, none, some, List, [], ◌∷◌, ◌≡◌, refl, ◌↔◌}
use turf.Options.{
  CString, Declared, Parsed, parsed, usage_exit, error_exit, requires_short, has_keyword_arg,
  help_option, dictionaries, nothing_parsed, parse,
}
use turf.Options.Accepted.{IsAccepted}
use turf.Options.Result.{parse_iff}
use turf.Options.Lookup.{IsFound, dictionaries-IsFound}

-- "threads", 't'
abbrev threads : Declared
threads = record {
  long_name = 116 ∷ 104 ∷ 114 ∷ 101 ∷ 97 ∷ 100 ∷ 115 ∷ [];
  short_name = 116;
  takes_param = true;
}

-- "quick", with no short name
abbrev quick : Declared
quick = record { long_name = 113 ∷ 117 ∷ 105 ∷ 99 ∷ 107 ∷ []; short_name = 0; takes_param = false }

abbrev options : List Declared
options = threads ∷ quick ∷ []

-- `-t4 --quick a`
abbrev arguments : List CString
arguments = (45 ∷ 116 ∷ 52 ∷ []) ∷ (45 ∷ 45 ∷ 113 ∷ 117 ∷ 105 ∷ 99 ∷ 107 ∷ []) ∷ (97 ∷ []) ∷ []

abbrev result : Parsed
result = record {
  keyword_args = (quick.long_name, none) ∷ (threads.long_name, some (52 ∷ [])) ∷ [];
  positional_args = (97 ∷ []) ∷ [];
}

accepts_line : parse options arguments ≡ parsed result
unfolding parse
accepts_line = refl

-- `-t`
refuses_missing : parse options ((45 ∷ 116 ∷ []) ∷ []) ≡ error_exit (requires_short 116)
unfolding parse
refuses_missing = refl

-- `-h`
ends_at_help : parse options ((45 ∷ 104 ∷ []) ∷ []) ≡ usage_exit
unfolding parse
ends_at_help = refl

parse_iff_example : (parse options arguments ≡ parsed result) ↔ (
    IsAccepted (dictionaries options) nothing_parsed arguments result
    × (has_keyword_arg help_option.long_name result ≡ false))
parse_iff_example = parse_iff options arguments result

dictionaries-IsFound_example : IsFound quick (dictionaries (threads ∷ quick ∷ []))
dictionaries-IsFound_example = dictionaries-IsFound (threads ∷ []) [] quick refl

-- `-t " -42"`
abbrev with_number : Parsed
with_number = record {
  keyword_args = (threads.long_name, some (32 ∷ 45 ∷ 52 ∷ 50 ∷ [])) ∷ [];
  positional_args = [];
}
