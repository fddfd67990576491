-- ===== src/Options.antt =====
-- turf/extra/Options.h and turf/extra/Options.cpp: the command line. A C string is the list of its
-- bytes before the terminator.
pub mod Words
pub mod Accepted
pub mod Result
pub mod Lookup
pub mod Integer
mod Tests
use turf.Prelude.{
  ℕ, ◌==◌, if◌then◌else◌, Bool, true, false, ◌&&◌, ◌||◌, not, Option, none, some, List, [], ◌∷◌,
  ◌++◌,
}

abbrev pub CString : Type 0
CString = List ℕ

-- `Option`, without its description.
pub record Declared : Type 0 where
  pub long_name : CString
  pub short_name : ℕ
  pub takes_param : Bool

-- Whether two strings are equal.
abbrev pub same : CString → CString → Bool
same [] [] = true
same [] (d ∷ ds) = false
same (c ∷ cs) [] = false
same (c ∷ cs) (d ∷ ds) = (c == d) && same cs ds

abbrev pub is_given {ℓ} : {A : Type ℓ} → Option A → Bool
is_given none = false
is_given (some a) = true

-- A `std::map` with string keys, the last insertion first; `find`.
abbrev pub find_long {ℓ} : {V : Type ℓ} → CString → List (CString × V) → Option V
find_long key [] = none
find_long key ((k, v) ∷ d) = if same k key then some v else find_long key d

-- A `std::map` with character keys; `find`.
abbrev pub find_short {ℓ} : {V : Type ℓ} → ℕ → List (ℕ × V) → Option V
find_short key [] = none
find_short key ((k, v) ∷ d) = if k == key then some v else find_short key d

abbrev pub dash : ℕ
dash = 45

-- "help", 'h'
abbrev pub help_option : Declared
help_option = record {
  long_name = 104 ∷ 101 ∷ 108 ∷ 112 ∷ [];
  short_name = 104;
  takes_param = false;
}

pub record Dictionaries : Type 0 where
  pub long_dict : List (CString × Declared)
  pub short_dict : List (ℕ × Declared)

-- One round of the loop that fills `longDict` and `shortDict`.
abbrev pub declare : Declared → Dictionaries → Dictionaries
declare o d = record {
  long_dict = (o.long_name, o) ∷ d.long_dict;
  short_dict = if o.short_name == 0 then d.short_dict else (o.short_name, o) ∷ d.short_dict;
}

-- The assertions of one round.
abbrev pub assert_new : Declared → Dictionaries → Bool
assert_new o d =
    not (is_given (find_long o.long_name d.long_dict))
    && (o.short_name == 0 || not (is_given (find_short o.short_name d.short_dict)))

abbrev pub declare_all : List Declared → Dictionaries → Dictionaries
declare_all [] d = d
declare_all (o ∷ os) d = declare_all os (declare o d)

abbrev pub assert_all : List Declared → Dictionaries → Bool
assert_all [] d = true
assert_all (o ∷ os) d = assert_new o d && assert_all os (declare o d)

abbrev pub with_help : Dictionaries
with_help = declare help_option (record { long_dict = []; short_dict = [] })

pub dictionaries : List Declared → Dictionaries
dictionaries os = declare_all os with_help

-- `m_keywordArgs` and `m_positionalArgs`; a keyword with no parameter has a null pointer.
pub record Parsed : Type 0 where
  pub keyword_args : List (CString × Option CString)
  pub positional_args : List CString

pub data Error : Type 0 where
  unrecognized_long : CString → Error
  twice_long : CString → Error
  requires_long : CString → Error
  unrecognized_short : ℕ → Error
  twice_short : ℕ → Error
  takes_none_short : ℕ → CString → Error
  requires_short : ℕ → Error

-- What one argument stands for.
pub data Reading : Type 0 where
  positional : Reading
  bound : Declared → Option CString → Reading
  wants : Declared → Error → Reading
  refused : Error → Reading

abbrev pub has_keyword_arg : CString → Parsed → Bool
has_keyword_arg name st = is_given (find_long name st.keyword_args)

pub read_long : Dictionaries → Parsed → CString → Reading
read_long d st name = elim (find_long name d.long_dict) [
  | none ↦ refused (unrecognized_long name)
  | some o ↦
      if has_keyword_arg o.long_name st
      then refused (twice_long name)
      else (if o.takes_param then wants o (requires_long name) else bound o none)
]

-- The part of the short branch from the test of `arg[2]` on.
pub read_rest : Declared → ℕ → CString → Reading
read_rest o c [] = if o.takes_param then wants o (requires_short c) else bound o none
read_rest o c (r ∷ rest) =
    if o.takes_param then bound o (some (r ∷ rest)) else refused (takes_none_short c (r ∷ rest))

pub read_short : Dictionaries → Parsed → ℕ → CString → Reading
unfolding read_rest
read_short d st c rest = elim (find_short c d.short_dict) [
  | none ↦ refused (unrecognized_short c)
  | some o ↦ if has_keyword_arg o.long_name st then refused (twice_short c) else read_rest o c rest
]

-- `arg` after its first character, a dash. The character after a lone dash is the terminator.
pub read_dashed : Dictionaries → Parsed → CString → Reading
unfolding read_long read_short
read_dashed d st [] = read_short d st 0 []
read_dashed d st (c ∷ rest) = if c == dash then read_long d st rest else read_short d st c rest

pub read_arg : Dictionaries → Parsed → CString → Reading
unfolding read_dashed
read_arg d st [] = positional
read_arg d st (c ∷ rest) = if c == dash then read_dashed d st rest else positional

abbrev pub set_keyword : Declared → Option CString → Parsed → Parsed
set_keyword o param st = record st { keyword_args = (o.long_name, param) ∷ st.keyword_args }

abbrev pub add_positional : CString → Parsed → Parsed
add_positional arg st = record st { positional_args = st.positional_args ++ arg ∷ [] }

pub data Outcome : Type 0 where
  parsed : Parsed → Outcome
  usage_exit : Outcome
  error_exit : Error → Outcome

-- The loop over the arguments; `pending` is the option whose parameter `++a` looks for.
pub parse_args : Dictionaries → Parsed → Option (Declared × Error) → List CString → Outcome
unfolding read_arg
parse_args d st none [] = parsed st
parse_args d st (some (o, e)) [] = error_exit e
parse_args d st (some (o, e)) (arg ∷ args) = parse_args d (set_keyword o (some arg) st) none args
parse_args d st none (arg ∷ args) = elim (read_arg d st arg) [
  | positional ↦ parse_args d (add_positional arg st) none args
  | bound o param ↦ parse_args d (set_keyword o param st) none args
  | wants o e ↦ parse_args d st (some (o, e)) args
  | refused e ↦ error_exit e
]

abbrev pub nothing_parsed : Parsed
nothing_parsed = record { keyword_args = []; positional_args = [] }

-- `parse`, from the constructor's empty maps, without the program's name.
pub parse : List Declared → List CString → Outcome
unfolding dictionaries parse_args
parse options args = elim (parse_args (dictionaries options) nothing_parsed none args) [
  | parsed st ↦ if has_keyword_arg help_option.long_name st then usage_exit else parsed st
  | usage_exit ↦ usage_exit
  | error_exit e ↦ error_exit e
]
