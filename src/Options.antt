-- ===== src/Options.antt =====
-- server/src/server.c: the options on the command line, and the port. `strtol` of the C library is
-- a parameter.
pub mod Port
use ojalvo_chat.Prelude.{
  ℕ, Bool, true, false, not, ◌||◌, List, [], ◌∷◌, Option, none, some, Text, codes, str_eq, ltb,
  if◌then◌else◌,
}

-- SERVER_DEFAULT_PORT
abbrev pub server_default_port : ℕ
server_default_port = 1234

pub record ServerOptions : Type 0 where
  pub show_help : Bool
  pub log_enabled : Bool
  pub port_arg : Option Text

unfoldable pub is_help : Text → Bool
is_help arg = str_eq arg (codes "-h") || str_eq arg (codes "--help")

unfoldable pub is_log : Text → Bool
is_log arg = str_eq arg (codes "-l") || str_eq arg (codes "--log")

unfoldable pub is_port : Text → Bool
is_port arg =
    str_eq arg (codes "-p") || str_eq arg (codes "--port") || str_eq arg (codes "--puerto")

-- The first two tests of the loop.
unfoldable pub set_flag : Text → ServerOptions → ServerOptions
set_flag arg options =
    if is_help arg
    then record options { show_help = true }
    else if is_log arg
    then record options { log_enabled = true }
    else options

-- The loop over the arguments; an option for the port takes the next argument, if there is one.
unfoldable pub parse_from : List Text → ServerOptions → ServerOptions
parse_from [] options = options
parse_from (arg ∷ []) options = set_flag arg options
parse_from (arg ∷ value ∷ args) options =
    let taken = parse_from args (record options { port_arg = some value }) in
    let passed = parse_from (value ∷ args) (set_flag arg options) in
    if is_help arg || is_log arg then passed else if is_port arg then taken else passed

unfoldable pub server_parse_args : List Text → ServerOptions
server_parse_args args =
    parse_from args (record { show_help = false; log_enabled = false; port_arg = none })

pub data ℤ : Type 0 where
  pos negsuc : ℕ → ℤ

-- What a call of `strtol` in base 10 gives: whether `endptr` moved, the value, and whether `errno`
-- was set.
pub record Parsed : Type 0 where
  pub moved : Bool
  pub value : ℤ
  pub failed : Bool

pub record Libc : Type 0 where
  pub strtol : Text → Parsed

unfoldable pub port_in_range : ℤ → ℕ
port_in_range (pos n) = if ltb n 1 || ltb 65535 n then server_default_port else n
port_in_range (negsuc n) = server_default_port

unfoldable pub parsed_port : Parsed → ℕ
parsed_port parsed =
    if not parsed.moved
    then server_default_port
    else if parsed.failed
    then server_default_port
    else port_in_range parsed.value

unfoldable pub server_resolve_port : ⦃L : Libc⦄ → ServerOptions → ℕ
server_resolve_port ⦃L⦄ options = elim options.port_arg [
  | none ↦ server_default_port
  | some arg ↦ parsed_port (L.strtol arg)
]
