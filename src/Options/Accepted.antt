-- ===== src/Options/Accepted.antt =====
-- Every command line that `parse` accepts is the words of commands that fit.
use turf.Prelude.{
  ℕ, ◌==◌, false, Bool-cases, Option-cases, ==_iff, inl, inr, none, some, List, [], ◌∷◌, ◌++◌, ◌≡◌,
  refl, sym, ap, ap₂, ◌∙◌,
}
use mathlib.Core.Path.{subst}
use turf.Options.{
  CString, Declared, Dictionaries, Parsed, Reading, positional, bound, wants, refused, Error,
  Outcome, parsed, error_exit, usage_exit, find_long, find_short, has_keyword_arg, dash,
  set_keyword, add_positional, read_long, read_rest, read_short, read_dashed, read_arg, parse_args,
}
use turf.Options.Words.{
  Command, word, long_option, short_option, joined_option, words, effect, Fits, AllFit, line,
  effects,
}

-- The words `args` are one command, which fits and leads to `after`.
record Spells (d : Dictionaries) (st : Parsed) (args : List CString) (after : Parsed) : Type 0 where
  command : Command
  fits : Fits d st command
  spelled : words command ≡ args
  leads : effect command st ≡ after

abbrev Means : Dictionaries → Parsed → CString → Reading → Type 0
Means d st arg positional = Spells d st (arg ∷ []) (add_positional arg st)
Means d st arg (bound o param) = Spells d st (arg ∷ []) (set_keyword o param st)
Means d st arg (wants o e) = (p : CString) → Spells d st (arg ∷ p ∷ []) (set_keyword o (some p) st)
Means d st arg (refused e) = Unit

read_long-Means :
    (d : Dictionaries) (st : Parsed) (name : CString)
    → Means d st (dash ∷ dash ∷ name) (read_long d st name)
unfolding read_long
read_long-Means d st name = elim (Option-cases (find_long name d.long_dict)) [
  | inl missing ↦ rw (missing, read_long) tt
  | inr (o, found) ↦ elim (Bool-cases (has_keyword_arg o.long_name st)) [
    | inl again ↦ rw (found, again, read_long) tt
    | inr fresh ↦ elim (Bool-cases o.takes_param) [
      | inl takes ↦
          rw (read_long, found, fresh, takes)
            (λ p. record {
              command = long_option name o (some p);
              fits = (found, fresh, takes);
              spelled = refl;
              leads = refl;
            })
      | inr plain ↦
          rw (read_long, found, fresh, plain)
            (record {
              command = long_option name o none;
              fits = (found, fresh, plain);
              spelled = refl;
              leads = refl;
            })
    ]
  ]
]

read_rest-Means :
    (d : Dictionaries) (st : Parsed) (o : Declared) (c : ℕ) (rest : CString)
    (other : (c == dash) ≡ false) (found : find_short c d.short_dict ≡ some o)
    (fresh : has_keyword_arg o.long_name st ≡ false)
    → Means d st (dash ∷ c ∷ rest) (read_rest o c rest)
unfolding read_rest
read_rest-Means d st o c [] other found fresh = elim (Bool-cases o.takes_param) [
  | inl takes ↦ rw takes (λ p. record {
    command = short_option c o (some p);
    fits = (other, found, fresh, takes);
    spelled = refl;
    leads = refl;
  })
  | inr plain ↦ rw plain (record {
    command = short_option c o none;
    fits = (other, found, fresh, plain);
    spelled = refl;
    leads = refl;
  })
]
read_rest-Means d st o c (r ∷ rest) other found fresh = elim (Bool-cases o.takes_param) [
  | inl takes ↦ rw takes (record {
    command = joined_option c o r rest;
    fits = (other, found, fresh, takes);
    spelled = refl;
    leads = refl;
  })
  | inr plain ↦ rw plain tt
]

read_short-Means :
    (d : Dictionaries) (st : Parsed) (c : ℕ) (rest : CString) (other : (c == dash) ≡ false)
    → Means d st (dash ∷ c ∷ rest) (read_short d st c rest)
unfolding read_short
read_short-Means d st c rest other = elim (Option-cases (find_short c d.short_dict)) [
  | inl missing ↦ rw (missing, read_short) tt
  | inr (o, found) ↦ elim (Bool-cases (has_keyword_arg o.long_name st)) [
    | inl again ↦ rw (found, again, read_short) tt
    | inr fresh ↦ rw (found, fresh, read_short) (read_rest-Means d st o c rest other found fresh)
  ]
]

read_dashed-Means :
    (d : Dictionaries) (st : Parsed) (rest : CString)
    (no_terminator : find_short 0 d.short_dict ≡ none)
    → Means d st (dash ∷ rest) (read_dashed d st rest)
unfolding read_dashed read_short
read_dashed-Means d st [] no_terminator = rw (no_terminator, read_short) tt
read_dashed-Means d st (c ∷ rest) no_terminator = elim (Bool-cases (c == dash)) [
  | inl t ↦
      subst (λ k. Means d st (dash ∷ k ∷ rest) (read_dashed d st (k ∷ rest)))
        (sym ((==_iff c dash).0 t)) (read_long-Means d st rest)
  | inr t ↦ rw t (read_short-Means d st c rest t)
]

read_arg-Means :
    (d : Dictionaries) (st : Parsed) (arg : CString)
    (no_terminator : find_short 0 d.short_dict ≡ none)
    → Means d st arg (read_arg d st arg)
unfolding read_arg
read_arg-Means d st [] no_terminator = record {
  command = word [];
  fits = refl;
  spelled = refl;
  leads = refl;
}
read_arg-Means d st (c ∷ rest) no_terminator = elim (Bool-cases (c == dash)) [
  | inl t ↦
      subst (λ k. Means d st (k ∷ rest) (read_arg d st (k ∷ rest))) (sym ((==_iff c dash).0 t))
        (read_dashed-Means d st rest no_terminator)
  | inr t ↦ rw t (record { command = word (c ∷ rest); fits = t; spelled = refl; leads = refl })
]

-- `args` are the words of commands that fit and lead from `st` to `after`.
pub record IsAccepted (d : Dictionaries) (st : Parsed) (args : List CString) (after : Parsed)
    : Type 0 where
  pub commands : List Command
  pub fit : AllFit d st commands
  pub spelled : line commands ≡ args
  pub leads : effects commands st ≡ after

cons_command :
    (d : Dictionaries) (st now after : Parsed) (these args : List CString)
    (one : Spells d st these now) (others : IsAccepted d now args after)
    → IsAccepted d st (these ++ args) after
cons_command d st now after these args one others = record {
  commands = one.command ∷ others.commands;
  fit = (one.fits, subst (λ t. AllFit d t others.commands) (sym one.leads) others.fit);
  spelled = ap₂ (λ (a b : List CString). a ++ b) one.spelled others.spelled;
  leads = ap (effects others.commands) one.leads ∙ others.leads;
}

the_parsed : Parsed → Outcome → Parsed
the_parsed default (parsed st) = st
the_parsed default usage_exit = default
the_parsed default (error_exit e) = default

-- The part of the loop after an argument has been read.
go_on : Dictionaries → Parsed → CString → List CString → Reading → Outcome
go_on d st arg args positional = parse_args d (add_positional arg st) none args
go_on d st arg args (bound o param) = parse_args d (set_keyword o param st) none args
go_on d st arg args (wants o e) = parse_args d st (some (o, e)) args
go_on d st arg args (refused e) = error_exit e

parse_args-go_on :
    (d : Dictionaries) (st : Parsed) (arg : CString) (args : List CString) (r : Reading)
    (same : read_arg d st arg ≡ r)
    → parse_args d st none (arg ∷ args) ≡ go_on d st arg args r
unfolding parse_args go_on
parse_args-go_on d st arg args positional same = rw (same, parse_args) refl
parse_args-go_on d st arg args (bound o param) same = rw (same, parse_args) refl
parse_args-go_on d st arg args (wants o e) same = rw (same, parse_args) refl
parse_args-go_on d st arg args (refused e) same = rw (same, parse_args) refl

-- What is left after an option that takes a parameter.
IsBound : Dictionaries → Parsed → Declared → List CString → Parsed → Type 0
IsBound d st o args after =
    (p : CString) × (rest : List CString) × (args ≡ p ∷ rest)
    × IsAccepted d (set_keyword o (some p) st) rest after

go_on-IsAccepted :
    (d : Dictionaries) (st after : Parsed) (arg : CString) (args : List CString) (r : Reading)
    (means : Means d st arg r)
    (now : (t : Parsed) → parse_args d t none args ≡ parsed after → IsAccepted d t args after)
    (pending : (t : Parsed) (o : Declared) (e : Error)
      → parse_args d t (some (o, e)) args ≡ parsed after
      → IsBound d t o args after)
    (h : go_on d st arg args r ≡ parsed after)
    → IsAccepted d st (arg ∷ args) after
unfolding go_on IsBound
go_on-IsAccepted d st after arg args positional means now pending h =
    cons_command d st _ after _ args means (now _ h)
go_on-IsAccepted d st after arg args (bound o param) means now pending h =
    cons_command d st _ after _ args means (now _ h)
go_on-IsAccepted d st after arg args (wants o e) means now pending h =
    let (p, rest, split, others) = pending st o e h in
    subst (λ t. IsAccepted d st (arg ∷ t) after) (sym split)
      (cons_command d st _ after _ rest (means p) others)
go_on-IsAccepted d st after arg args (refused e) means now pending h = absurd (cc)

parse_args-both :
    (d : Dictionaries) (after : Parsed) (no_terminator : find_short 0 d.short_dict ≡ none)
    (args : List CString)
    → ((t : Parsed) → parse_args d t none args ≡ parsed after → IsAccepted d t args after)
      × ((t : Parsed) (o : Declared) (e : Error)
          → parse_args d t (some (o, e)) args ≡ parsed after
          → IsBound d t o args after)
unfolding parse_args IsBound the_parsed
parse_args-both d after no_terminator [] = (
  λ t h. record { commands = []; fit = tt; spelled = refl; leads = ap (the_parsed t) h },
  λ t o e h. absurd (cc),
)
parse_args-both d after no_terminator (arg ∷ args) =
    let ih = parse_args-both d after no_terminator args in
    (
      λ t h.
          go_on-IsAccepted d t after arg args (read_arg d t arg)
            (read_arg-Means d t arg no_terminator) ih.0 ih.1
            (sym (parse_args-go_on d t arg args (read_arg d t arg) refl) ∙ h),
      λ t o e h. (arg, args, refl, ih.0 (set_keyword o (some arg) t) h),
    )

-- Where no option has the terminator for its short name, a command line that the loop accepts is
-- the words of commands that fit, and the result is what they do in their order.
pub parse_args-IsAccepted :
    (d : Dictionaries) (st after : Parsed) (args : List CString)
    (no_terminator : find_short 0 d.short_dict ≡ none)
    (ok : parse_args d st none args ≡ parsed after)
    → IsAccepted d st args after
parse_args-IsAccepted d st after args no_terminator ok =
    (parse_args-both d after no_terminator args).0 st ok
