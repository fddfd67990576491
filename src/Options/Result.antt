-- ===== src/Options/Result.antt =====
-- The three ends of `parse`.
use turf.Prelude.{
  if◌then◌else◌, true, false, Bool-cases, inl, inr, none, List, [], ◌∷◌, ◌≡◌, refl, sym, ap, ◌∙◌,
  ◌↔◌, arith,
}
use turf.Options.{
  CString, Declared, Dictionaries, Parsed, Outcome, parsed, usage_exit, error_exit, find_short,
  has_keyword_arg, help_option, declare, declare_all, with_help, dictionaries, parse_args,
  nothing_parsed, parse,
}
use turf.Options.Words.{parse_args-line}
use turf.Options.Accepted.{IsAccepted, parse_args-IsAccepted}
use mathlib.Core.Path.{subst}

declare_all_terminator :
    (os : List Declared) (d : Dictionaries) (none_yet : find_short 0 d.short_dict ≡ none)
    → find_short 0 (declare_all os d).short_dict ≡ none
declare_all_terminator [] d none_yet = none_yet
declare_all_terminator (o ∷ os) d none_yet =
    declare_all_terminator os (declare o d) (ground (arith, none_yet))

dictionaries_terminator : (os : List Declared) → find_short 0 (dictionaries os).short_dict ≡ none
unfolding dictionaries
dictionaries_terminator os = declare_all_terminator os with_help refl

-- The loop ends with these maps exactly when the arguments are the words of commands that fit.
parse_args_iff :
    (options : List Declared) (args : List CString) (after : Parsed)
    → (parse_args (dictionaries options) nothing_parsed none args ≡ parsed after)
      ↔ IsAccepted (dictionaries options) nothing_parsed args after
parse_args_iff options args after = (
  parse_args-IsAccepted (dictionaries options) nothing_parsed after args
      (dictionaries_terminator options),
  λ a.
      subst (λ t. parse_args (dictionaries options) nothing_parsed none t ≡ parsed after) a.spelled
        (parse_args-line (dictionaries options) a.commands nothing_parsed a.fit
          ∙ ap (λ (t : Parsed). parsed t) a.leads),
)

ended : Outcome → Outcome
ended (parsed st) = if has_keyword_arg help_option.long_name st then usage_exit else parsed st
ended usage_exit = usage_exit
ended (error_exit e) = error_exit e

parse-ended :
    (options : List Declared) (args : List CString) (r : Outcome)
    (same : parse_args (dictionaries options) nothing_parsed none args ≡ r)
    → parse options args ≡ ended r
unfolding parse ended
parse-ended options args (parsed st) same = rw (parse, same) refl
parse-ended options args usage_exit same = rw (parse, same) refl
parse-ended options args (error_exit e) same = rw (parse, same) refl

the_parsed : Parsed → Outcome → Parsed
the_parsed default (parsed st) = st
the_parsed default usage_exit = default
the_parsed default (error_exit e) = default

ended_as_parsed :
    (r : Outcome) (after : Parsed) (h : ended r ≡ parsed after)
    → (r ≡ parsed after) × (has_keyword_arg help_option.long_name after ≡ false)
unfolding ended the_parsed
ended_as_parsed (parsed st) after h = elim (Bool-cases (has_keyword_arg help_option.long_name st)) [
  | inl t ↦ let e : usage_exit ≡ parsed after = sym (helped st t) ∙ h in absurd (cc)
  | inr t ↦
      let e : parsed st ≡ parsed after = sym (not_helped st t) ∙ h in
      (
        e,
        sym (ap (λ (s : Parsed). has_keyword_arg help_option.long_name s) (ap (the_parsed st) e))
            ∙ t,
      )
]
  where
    helped :
        (st : Parsed) (t : has_keyword_arg help_option.long_name st ≡ true)
        → ended (parsed st) ≡ usage_exit
    helped st t = rw (ended, t) refl

    not_helped :
        (st : Parsed) (t : has_keyword_arg help_option.long_name st ≡ false)
        → ended (parsed st) ≡ parsed st
    not_helped st t = rw (ended, t) refl
ended_as_parsed usage_exit after h = absurd (cc)
ended_as_parsed (error_exit e) after h = absurd (cc)

parsed_ended :
    (after : Parsed) (no_help : has_keyword_arg help_option.long_name after ≡ false)
    → ended (parsed after) ≡ parsed after
unfolding ended
parsed_ended after no_help = rw (ended, no_help) refl

-- `parse` returns, with the given maps, exactly when the arguments are the words of commands that
-- fit, the maps are what these commands do in their order, and none of them is the help option.
pub parse_iff :
    (options : List Declared) (args : List CString) (after : Parsed)
    → (parse options args ≡ parsed after) ↔ (
        IsAccepted (dictionaries options) nothing_parsed args after
        × (has_keyword_arg help_option.long_name after ≡ false))
parse_iff options args after =
    let loop = parse_args (dictionaries options) nothing_parsed none args in
    (
      λ h.
          let (ok, no_help) =
            ended_as_parsed loop after (sym (parse-ended options args loop refl) ∙ h) in
          ((parse_args_iff options args after).0 ok, no_help),
      λ h.
          parse-ended options args (parsed after) ((parse_args_iff options args after).1 h.0)
          ∙ parsed_ended after h.1,
    )
