-- ===== src/Options/Words.antt =====
-- The command lines that `parse` accepts, written out: the words of a list of commands, each of
-- which fits what was declared and what came before it.
use turf.Prelude.{
  ℕ, ◌==◌, Bool, true, false, Option, none, some, List, [], ◌∷◌, ◌++◌, ◌≡◌, refl, ◌∙◌,
}
use turf.Options.{
  CString, Declared, Dictionaries, Parsed, parsed, is_given, find_long, find_short, has_keyword_arg,
  dash, set_keyword, add_positional, read_long, read_rest, read_short, read_dashed, read_arg,
  parse_args,
}

pub data Command : Type 0 where
  word : CString → Command
  long_option : CString → Declared → Option CString → Command
  short_option : ℕ → Declared → Option CString → Command
  -- `-cPARAM`
  joined_option : ℕ → Declared → ℕ → CString → Command

abbrev pub words : Command → List CString
words (word w) = w ∷ []
words (long_option name o none) = (dash ∷ dash ∷ name) ∷ []
words (long_option name o (some p)) = (dash ∷ dash ∷ name) ∷ p ∷ []
words (short_option c o none) = (dash ∷ c ∷ []) ∷ []
words (short_option c o (some p)) = (dash ∷ c ∷ []) ∷ p ∷ []
words (joined_option c o r rest) = (dash ∷ c ∷ r ∷ rest) ∷ []

abbrev pub effect : Command → Parsed → Parsed
effect (word w) st = add_positional w st
effect (long_option name o param) st = set_keyword o param st
effect (short_option c o param) st = set_keyword o param st
effect (joined_option c o r rest) st = set_keyword o (some (r ∷ rest)) st

abbrev pub starts_with_dash : CString → Bool
starts_with_dash [] = false
starts_with_dash (c ∷ cs) = c == dash

-- A positional word has no dash in front. An option is declared, was not given before, and has a
-- parameter exactly when its declaration takes one.
abbrev pub Fits : Dictionaries → Parsed → Command → Type 0
Fits d st (word w) = starts_with_dash w ≡ false
Fits d st (long_option name o param) =
    (find_long name d.long_dict ≡ some o)
    × (has_keyword_arg o.long_name st ≡ false)
    × (o.takes_param ≡ is_given param)
Fits d st (short_option c o param) =
    ((c == dash) ≡ false)
    × (find_short c d.short_dict ≡ some o)
    × (has_keyword_arg o.long_name st ≡ false)
    × (o.takes_param ≡ is_given param)
Fits d st (joined_option c o r rest) =
    ((c == dash) ≡ false)
    × (find_short c d.short_dict ≡ some o)
    × (has_keyword_arg o.long_name st ≡ false)
    × (o.takes_param ≡ true)

abbrev pub AllFit : Dictionaries → Parsed → List Command → Type 0
AllFit d st [] = Unit
AllFit d st (c ∷ cs) = Fits d st c × AllFit d (effect c st) cs

abbrev pub line : List Command → List CString
line [] = []
line (c ∷ cs) = words c ++ line cs

abbrev pub effects : List Command → Parsed → Parsed
effects [] st = st
effects (c ∷ cs) st = effects cs (effect c st)

parse_args_word :
    (d : Dictionaries) (st : Parsed) (c : Command) (fits : Fits d st c) (args : List CString)
    → parse_args d st none (words c ++ args) ≡ parse_args d (effect c st) none args
unfolding parse_args read_arg read_dashed read_long read_short read_rest
parse_args_word d st (word []) fits args = refl
parse_args_word d st (word (c ∷ cs)) fits args =
    let plain : (c == dash) ≡ false = fits in rw (plain, parse_args, read_arg) refl
parse_args_word d st (long_option name o none) (f, h, t) args =
    rw (f, h, t, parse_args, read_arg, read_dashed, read_long) refl
parse_args_word d st (long_option name o (some p)) (f, h, t) args =
    rw (f, h, t, parse_args, read_arg, read_dashed, read_long) refl
parse_args_word d st (short_option c o none) (n, f, h, t) args =
    rw (n, f, h, t, parse_args, read_arg, read_dashed, read_short, read_rest) refl
parse_args_word d st (short_option c o (some p)) (n, f, h, t) args =
    rw (n, f, h, t, parse_args, read_arg, read_dashed, read_short, read_rest) refl
parse_args_word d st (joined_option c o r rest) (n, f, h, t) args =
    rw (n, f, h, t, parse_args, read_arg, read_dashed, read_short, read_rest) refl

-- From any state of the maps, the words of a list of commands that fit are parsed, and the result
-- is what the commands do in their order.
pub parse_args-line :
    (d : Dictionaries) (cs : List Command) (st : Parsed) (fit : AllFit d st cs)
    → parse_args d st none (line cs) ≡ parsed (effects cs st)
unfolding parse_args
parse_args-line d [] st fit = refl
parse_args-line d (c ∷ cs) st (f, fit) =
    parse_args_word d st c f (line cs) ∙ parse_args-line d cs (effect c st) fit
