-- ===== src/Config.antt =====
-- server/app/ServerConfig.h and ServerConfig.cpp: the command line and the configuration file of the
-- server. The text of an error is the kind of the error. The configuration file is its text, or
-- none if it cannot be opened.
pub mod Allowed
mod Runs
use log_transfer_analyzer.Prelude.{
  ℕ, ◌+◌, ◌*◌, Bool, true, false, not, ◌&&◌, ◌||◌, ltb, leb, ◌==◌, if◌then◌else◌, List, [], ◌∷◌,
  Bytes, codes, length, take, drop, Option, none, some, u64_mod, same_text, find_text, get_or,
}
use log_transfer_analyzer.LineParser.Calendar.{is_digit, digits_value}
use log_transfer_analyzer.LineParser.Fields.{only_digits}
use log_transfer_analyzer.Summary.{split_lines}

-- The texts of `ParseResult::error`, with what they are wrapped in.
pub data Failure : Type 0 where
  missing_port invalid_number out_of_range missing_path empty_path unknown_argument : Failure
  missing_separator empty_key empty_value unknown_key : Failure
  in_line : ℕ → Failure → Failure
  in_file : Failure → Failure

-- `ParseResult` with the `out` parameter.
pub data Parsed (A : Type 0) : Type 0 where
  failed : Failure → Parsed A
  parsed : A → Parsed A

abbrev pub default_port : ℕ
default_port = 23507

abbrev pub min_port : ℕ
min_port = 1024

abbrev pub min_chunk_size : ℕ
min_chunk_size = 4 * 1024

abbrev pub max_chunk_size : ℕ
max_chunk_size = 1024 * 1024

abbrev pub min_send_buffer_size : ℕ
min_send_buffer_size = 8 * 1024

abbrev pub max_send_buffer_size : ℕ
max_send_buffer_size = 16 * 1024 * 1024

pub record ServerConfig : Type 0 where
  pub port : ℕ
  pub daemonize : Bool
  pub chunk_size : ℕ
  pub send_buffer_size : ℕ
  pub log_path : Bytes
  pub config_path : Bytes

abbrev pub default_config : ServerConfig
default_config = record {
  port = default_port;
  daemonize = false;
  chunk_size = 64 * 1024;
  send_buffer_size = 0;
  log_path = codes "./server.log";
  config_path = codes "./server.conf";
}

pub record CommandLine : Type 0 where
  pub config_path : Bytes
  pub daemonize : Bool
  pub has_port : Bool
  pub port : ℕ
  pub help_requested : Bool

abbrev pub no_arguments : CommandLine
no_arguments = record {
  config_path = codes "./server.conf";
  daemonize = false;
  has_port = false;
  port = 0;
  help_requested = false;
}

abbrev is_space : ℕ → Bool
is_space c = (c == b' ') || (c == b'\t') || (c == b'\r')

-- The two loops of `trim`.
abbrev front_trimmed : Bytes → Bytes
front_trimmed [] = []
front_trimmed (c ∷ text) = let rest = front_trimmed text in if is_space c then rest else c ∷ text

abbrev back_trimmed : Bytes → Bytes
back_trimmed [] = []
back_trimmed (c ∷ text) = elim (back_trimmed text) [
  | [] ↦ if is_space c then [] else c ∷ []
  | d ∷ rest ↦ c ∷ d ∷ rest
]

abbrev trimmed : Bytes → Bytes
trimmed text = back_trimmed (front_trimmed text)

-- `parseUnsigned`: `from_chars` reads all characters just if they are digits.
abbrev pub parse_unsigned : Bytes → Option ℕ
parse_unsigned token =
    let value = digits_value 0 token in
    if not (is_digit (get_or token 0 0))
    then none
    else if only_digits token && ltb value u64_mod
    then some value
    else none

-- `applyPort`, with what `parseUnsigned` returns.
abbrev pub port_in : Option ℕ → Parsed ℕ
port_in none = failed invalid_number
port_in (some n) = if ltb n min_port || ltb 65535 n then failed out_of_range else parsed n

abbrev pub apply_port : Bytes → Parsed ℕ
apply_port value = port_in (parse_unsigned value)

-- `applySize`, with what `parseUnsigned` returns.
abbrev pub size_in : Option ℕ → ℕ → ℕ → Bool → Parsed ℕ
size_in none low high allow_zero = failed invalid_number
size_in (some n) low high allow_zero =
    if allow_zero && (n == 0)
    then parsed 0
    else if ltb n low || ltb high n
    then failed out_of_range
    else parsed n

abbrev pub apply_size : Bytes → ℕ → ℕ → Bool → Parsed ℕ
apply_size value low high allow_zero = size_in (parse_unsigned value) low high allow_zero

-- What comes after a part that may fail.
abbrev pub and_then : {A B : Type 0} → Parsed A → (A → Parsed B) → Parsed B
and_then (failed e) next = failed e
and_then (parsed a) next = next a

-- The loop of `parseCommandLine`, over the arguments behind the name of the program.
unfoldable pub parse_arguments : List Bytes → CommandLine → Parsed CommandLine
parse_arguments [] cli = parsed cli
parse_arguments (arg ∷ []) cli =
    if same_text arg (codes "-h") || same_text arg (codes "--help")
    then parsed (record cli { help_requested = true })
    else if same_text arg (codes "-d")
    then parsed (record cli { daemonize = true })
    else if same_text arg (codes "-p")
    then failed missing_port
    else if same_text arg (codes "-c")
    then failed missing_path
    else failed unknown_argument
parse_arguments (arg ∷ value ∷ args) cli =
    let behind = parse_arguments (value ∷ args) (record cli { daemonize = true }) in
    let with_port =
      λ (port : ℕ). parse_arguments args (record cli { port = port; has_port = true }) in
    let with_path = parse_arguments args (record cli { config_path = value }) in
    if same_text arg (codes "-h") || same_text arg (codes "--help")
    then parsed (record cli { help_requested = true })
    else if same_text arg (codes "-d")
    then behind
    else if same_text arg (codes "-p")
    then and_then (apply_port value) with_port
    else if same_text arg (codes "-c")
    then (if length value == 0 then failed empty_path else with_path)
    else failed unknown_argument

-- The chain of keys in `parseConfigText`.
unfoldable pub apply_entry : Bytes → Bytes → ServerConfig → Parsed ServerConfig
apply_entry key value config =
    if same_text key (codes "port")
    then and_then (apply_port value) (λ n. parsed (record config { port = n }))
    else if same_text key (codes "chunk_size")
    then and_then (apply_size value min_chunk_size max_chunk_size false)
        (λ n. parsed (record config { chunk_size = n }))
    else if same_text key (codes "snd_buf_size")
    then and_then (apply_size value min_send_buffer_size max_send_buffer_size true)
        (λ n. parsed (record config { send_buffer_size = n }))
    else if same_text key (codes "log_path")
    then parsed (record config { log_path = value })
    else failed unknown_key

-- A line that is not blank, cut at the first `=`.
unfoldable pub parse_entry : Option ℕ → Bytes → ServerConfig → Parsed ServerConfig
unfolding apply_entry
parse_entry none line config = failed missing_separator
parse_entry (some separator) line config =
    let key = trimmed (take separator line) in
    let value = trimmed (drop (separator + 1) line) in
    if length key == 0
    then failed empty_key
    else if length value == 0
    then failed empty_value
    else apply_entry key value config

-- ` (line n)` behind an error.
abbrev pub at_line : ℕ → Parsed ServerConfig → Parsed ServerConfig
at_line n (failed e) = failed (in_line n e)
at_line n (parsed config) = parsed config

-- The loop of `parseConfigText`, with the number of the lines before. `getline` does not yield the
-- empty piece behind the last newline, which is skipped here.
unfoldable pub parse_lines : ℕ → List Bytes → ServerConfig → Parsed ServerConfig
unfolding parse_entry
parse_lines n [] config = parsed config
parse_lines n (raw_line ∷ lines) config =
    let line = trimmed raw_line in
    let skipped = parse_lines (n + 1) lines config in
    let entry = at_line (n + 1) (parse_entry (find_text line (codes "=") 0) line config) in
    if (length line == 0) || (get_or line 0 0 == b'#')
    then skipped
    else and_then entry (λ config'. parse_lines (n + 1) lines config')

-- `parseConfigText`.
unfoldable pub parse_config_text : Bytes → ServerConfig → Parsed ServerConfig
unfolding parse_lines
parse_config_text text config = parse_lines 0 (split_lines text) config

-- The end of `buildConfig`: the command line is stronger.
abbrev pub overridden : CommandLine → ServerConfig → ServerConfig
overridden cli config = record config {
  daemonize = cli.daemonize;
  port = if cli.has_port then cli.port else config.port;
}

abbrev pub named_file : Parsed ServerConfig → Parsed ServerConfig
named_file (failed e) = failed (in_file e)
named_file (parsed config) = parsed config

-- `buildConfig`.
unfoldable pub build_config : Option Bytes → CommandLine → Parsed ServerConfig
unfolding parse_config_text
build_config none cli =
    parsed (overridden cli (record default_config { config_path = cli.config_path }))
build_config (some text) cli =
    and_then
      (named_file
        (parse_config_text text (record default_config { config_path = cli.config_path })))
      (λ config. parsed (overridden cli config))
