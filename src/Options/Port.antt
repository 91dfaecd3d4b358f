-- ===== src/Options/Port.antt =====
-- The port that the server listens on, and the flags.
use ojalvo_chat.Prelude.{
  ◌≤◌, ◌≡◌, refl, ◌∙◌, if◌then◌else◌, Bool, true, false, ◌||◌, List, [], ◌∷◌, none, Text, codes,
  str_eq, str_eq_iff, arith, Bool-cases, Option-cases, inl, inr,
}
use ojalvo_chat.Options.{
  ServerOptions, Libc, Parsed, ℤ, pos, negsuc, port_in_range, parsed_port, server_resolve_port,
  parse_from, server_parse_args, is_help, is_log, is_port, set_flag,
}

port_in_range-bounds : (z : ℤ) → (1 ≤ port_in_range z) × (port_in_range z ≤ 65535)
unfolding port_in_range
port_in_range-bounds (pos n) = ground arith
port_in_range-bounds (negsuc n) = ground arith

parsed_port-bounds : (p : Parsed) → (1 ≤ parsed_port p) × (parsed_port p ≤ 65535)
unfolding parsed_port
parsed_port-bounds p = ground (arith, port_in_range-bounds p.value)

-- Whatever the options are and whatever strtol gives, the port is from 1 to 65535.
pub server_resolve_port-bounds :
    ⦃L : Libc⦄ (options : ServerOptions)
    → (1 ≤ server_resolve_port options) × (server_resolve_port options ≤ 65535)
unfolding server_resolve_port
server_resolve_port-bounds ⦃L⦄ options = elim (Option-cases options.port_arg) [
  | inl e ↦ rw e (omega arith, omega arith)
  | inr (arg, e) ↦ rw e (parsed_port-bounds (L.strtol arg))
]

-- Whether a test holds of one of the arguments.
abbrev pub any : (Text → Bool) → List Text → Bool
any test [] = false
any test (arg ∷ args) = test arg || any test args

if_same : {A : Type 0} (b : Bool) (x : A) → (if b then x else x) ≡ x
if_same true x = refl
if_same false x = refl

help_or_log : (arg : Text) → is_help arg ≡ true → is_log arg ≡ false
unfolding is_help is_log str_eq
help_or_log arg h = elim (Bool-cases (str_eq arg (codes "-h"))) [
  | inl e ↦ rw ((str_eq_iff arg (codes "-h")).0 e) refl
  | inr e ↦ rw ((str_eq_iff arg (codes "--help")).0 (ground (arith, e, h))) refl
]

-- The options with what two tests say added to the flags.
abbrev raise_flags : ServerOptions → Bool → Bool → ServerOptions
raise_flags o help log = record {
  show_help = o.show_help || help;
  log_enabled = o.log_enabled || log;
  port_arg = o.port_arg;
}

set_flag_lem :
    (arg : Text) (o : ServerOptions) → set_flag arg o ≡ raise_flags o (is_help arg) (is_log arg)
unfolding set_flag
set_flag_lem arg o = ground (arith, help_or_log arg)

raise_twice :
    (o : ServerOptions) (a b c d : Bool)
    → raise_flags (raise_flags o a b) c d ≡ raise_flags o (a || c) (b || d)
raise_twice o a b c d = ground arith

raise_none :
    (o : ServerOptions) (a b : Bool) → raise_flags o a b ≡ raise_flags o (a || false) (b || false)
raise_none o a b = ground arith

pass :
    (arg value : Text) (args : List Text) (o : ServerOptions)
    → is_port arg ≡ false
    → parse_from (arg ∷ value ∷ args) o ≡ parse_from (value ∷ args) (set_flag arg o)
unfolding parse_from
pass arg value args o h =
    rw h (if_same (is_help arg || is_log arg) (parse_from (value ∷ args) (set_flag arg o)))

parse_from-flags :
    (args : List Text) (o : ServerOptions)
    → any is_port args ≡ false
    → parse_from args o ≡ raise_flags o (any is_help args) (any is_log args)
unfolding parse_from
parse_from-flags [] o h = ground arith
parse_from-flags (arg ∷ []) o h = set_flag_lem arg o ∙ raise_none o (is_help arg) (is_log arg)
parse_from-flags (arg ∷ value ∷ args) o h =
    pass arg value args o (ground (arith, h))
    ∙ parse_from-flags (value ∷ args) (set_flag arg o) (ground (arith, h))
    ∙ rw (set_flag_lem arg o) (
        raise_twice o (is_help arg) (is_log arg) (any is_help (value ∷ args))
          (any is_log (value ∷ args)))

-- If no argument is an option for the port, show_help and log_enabled say whether any argument asks
-- for them, wherever it stands, and no port is given.
pub server_parse_args-flags :
    (args : List Text)
    → any is_port args ≡ false
    → server_parse_args args
      ≡ record { show_help = any is_help args; log_enabled = any is_log args; port_arg = none }
unfolding server_parse_args
server_parse_args-flags args h = parse_from-flags args _ h
