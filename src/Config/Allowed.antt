-- ===== src/Config/Allowed.antt =====
-- Whatever the arguments and the text of the file: a configuration that is accepted is within the bounds.
use log_transfer_analyzer.Prelude.{
  ℕ, ◌+◌, ◌≡◌, ◌≤◌, ◌<◌, refl, Bool, true, false, ◌||◌, ltb, ◌==◌, if◌then◌else◌, List, [], ◌∷◌,
  Bytes, codes, length, take, drop, Option, none, some, same_text, find_text, get_or, ◌⊎◌, inl, inr,
  arith, tests,
}
use log_transfer_analyzer.Session.Steps.{if_any, if_cases}
use log_transfer_analyzer.Summary.{split_lines}
use log_transfer_analyzer.Config.{
  Parsed, failed, parsed, ServerConfig, CommandLine, min_port, min_chunk_size, max_chunk_size,
  min_send_buffer_size, max_send_buffer_size, default_config, no_arguments, parse_unsigned, port_in,
  apply_port, size_in, apply_size, and_then, parse_arguments, apply_entry, parse_entry, at_line,
  parse_lines, parse_config_text, overridden, named_file, build_config, trimmed,
}

-- What holds of a value, if there is one.
abbrev pub Holds : {A : Type 0} → (A → Type 0) → Parsed A → Type 0
Holds P (failed e) = Unit
Holds P (parsed a) = P a

abbrev pub IsPort : ℕ → Type 0
IsPort n = (min_port ≤ n) × (n ≤ 65535)

abbrev pub IsSize : ℕ → ℕ → ℕ → Type 0
IsSize low high n = (low ≤ n) × (n ≤ high)

pub record IsAllowed (config : ServerConfig) : Type 0 where
  pub port_allowed : IsPort config.port
  pub chunk_allowed : IsSize min_chunk_size max_chunk_size config.chunk_size
  pub send_allowed :
      (config.send_buffer_size ≡ 0)
      ⊎ IsSize min_send_buffer_size max_send_buffer_size config.send_buffer_size
  pub log_named : 0 < length config.log_path
  pub file_named : 0 < length config.config_path

-- The port counts just if it was given.
abbrev PortGiven : Bool → ℕ → Type 0
PortGiven false n = Unit
PortGiven true n = IsPort n

abbrev IsCommandLine : CommandLine → Type 0
IsCommandLine cli = PortGiven cli.has_port cli.port × (0 < length cli.config_path)

and_then-Holds :
    {A B : Type 0} (P : A → Type 0) (Q : B → Type 0) (p : Parsed A) (next : A → Parsed B)
    → Holds P p
    → ((a : A) → P a → Holds Q (next a))
    → Holds Q (and_then p next)
and_then-Holds P Q (failed e) next h k = tt
and_then-Holds P Q (parsed a) next h k = k a h

port_in-Holds : (value : Option ℕ) → Holds IsPort (port_in value)
port_in-Holds none = tt
port_in-Holds (some n) =
    if_cases (Holds IsPort) (ltb n min_port || ltb 65535 n) (λ _. tt)
      (λ e. (grind tests, grind tests))

size_in-Holds :
    (value : Option ℕ) (low high : ℕ) → Holds (IsSize low high) (size_in value low high false)
size_in-Holds none low high = tt
size_in-Holds (some n) low high =
    if_cases (Holds (IsSize low high)) (ltb n low || ltb high n) (λ _. tt)
      (λ e. (grind tests, grind tests))

size_in-zero :
    (value : Option ℕ) (low high : ℕ)
    → Holds (λ n. (n ≡ 0) ⊎ IsSize low high n) (size_in value low high true)
size_in-zero none low high = tt
size_in-zero (some n) low high =
    if_any (Holds P) (n == 0) (inl refl)
      (if_cases (Holds P) (ltb n low || ltb high n) (λ _. tt) (λ e. inr (grind tests, grind tests)))
  where
    P : ℕ → Type 0
    P n = (n ≡ 0) ⊎ IsSize low high n

parse_arguments-Holds :
    (args : List Bytes) (cli : CommandLine)
    → IsCommandLine cli
    → Holds IsCommandLine (parse_arguments args cli)
unfolding parse_arguments
parse_arguments-Holds [] cli h = h
parse_arguments-Holds (arg ∷ []) cli h =
    if_any P (same_text arg (codes "-h") || same_text arg (codes "--help")) h (
      if_any P (same_text arg (codes "-d")) h
        (if_any P (same_text arg (codes "-p")) tt (if_any P (same_text arg (codes "-c")) tt tt)))
  where
    P : Parsed CommandLine → Type 0
    P = Holds IsCommandLine
parse_arguments-Holds (arg ∷ value ∷ args) cli h =
    if_any P (same_text arg (codes "-h") || same_text arg (codes "--help")) h (
      if_any P (same_text arg (codes "-d"))
        (parse_arguments-Holds (value ∷ args) (record cli { daemonize = true }) h)
        (if_any P (same_text arg (codes "-p"))
          (and_then-Holds IsPort IsCommandLine (apply_port value)
            (λ port. parse_arguments args (record cli { port = port; has_port = true }))
            (port_in-Holds (parse_unsigned value))
            (λ port k.
              parse_arguments-Holds args (record cli { port = port; has_port = true }) (k, h.1)))
          (if_any P (same_text arg (codes "-c"))
            (if_cases P (length value == 0) (λ _. tt)
              (λ e.
                parse_arguments-Holds args (record cli { config_path = value }) (h.0, grind tests)))
            tt)))
  where
    P : Parsed CommandLine → Type 0
    P = Holds IsCommandLine

apply_entry-Holds :
    (key value : Bytes) (config : ServerConfig)
    → 0 < length value
    → IsAllowed config
    → Holds IsAllowed (apply_entry key value config)
unfolding apply_entry
apply_entry-Holds key value config some_value h =
    if_any P (same_text key (codes "port"))
      (and_then-Holds IsPort IsAllowed (apply_port value) (λ n. parsed (record config { port = n }))
        (port_in-Holds (parse_unsigned value))
        (λ n k. record {
          port_allowed = k;
          chunk_allowed = h.chunk_allowed;
          send_allowed = h.send_allowed;
          log_named = h.log_named;
          file_named = h.file_named;
        }))
      (if_any P (same_text key (codes "chunk_size"))
        (and_then-Holds (IsSize min_chunk_size max_chunk_size) IsAllowed
          (apply_size value min_chunk_size max_chunk_size false)
          (λ n. parsed (record config { chunk_size = n }))
          (size_in-Holds (parse_unsigned value) min_chunk_size max_chunk_size)
          (λ n k. record {
            port_allowed = h.port_allowed;
            chunk_allowed = k;
            send_allowed = h.send_allowed;
            log_named = h.log_named;
            file_named = h.file_named;
          }))
        (if_any P (same_text key (codes "snd_buf_size"))
          (and_then-Holds (λ n. (n ≡ 0) ⊎ IsSize min_send_buffer_size max_send_buffer_size n)
            IsAllowed (apply_size value min_send_buffer_size max_send_buffer_size true)
            (λ n. parsed (record config { send_buffer_size = n }))
            (size_in-zero (parse_unsigned value) min_send_buffer_size max_send_buffer_size)
            (λ n k. record {
              port_allowed = h.port_allowed;
              chunk_allowed = h.chunk_allowed;
              send_allowed = k;
              log_named = h.log_named;
              file_named = h.file_named;
            }))
          (if_any P (same_text key (codes "log_path"))
            (record {
              port_allowed = h.port_allowed;
              chunk_allowed = h.chunk_allowed;
              send_allowed = h.send_allowed;
              log_named = some_value;
              file_named = h.file_named;
            })
            tt)))
  where
    P : Parsed ServerConfig → Type 0
    P = Holds IsAllowed

parse_entry-Holds :
    (separator : Option ℕ) (line : Bytes) (config : ServerConfig)
    → IsAllowed config
    → Holds IsAllowed (parse_entry separator line config)
unfolding parse_entry
parse_entry-Holds none line config h = tt
parse_entry-Holds (some separator) line config h =
    if_any P (length (trimmed (take separator line)) == 0) tt (
      if_cases P (length value == 0) (λ _. tt)
        (λ e. apply_entry-Holds (trimmed (take separator line)) value config (grind tests) h))
  where
    P : Parsed ServerConfig → Type 0
    P = Holds IsAllowed

    value : Bytes
    value = trimmed (drop (separator + 1) line)

at_line-Holds :
    (n : ℕ) (p : Parsed ServerConfig) → Holds IsAllowed p → Holds IsAllowed (at_line n p)
at_line-Holds n (failed e) h = tt
at_line-Holds n (parsed config) h = h

parse_lines-Holds :
    (n : ℕ) (lines : List Bytes) (config : ServerConfig)
    → IsAllowed config
    → Holds IsAllowed (parse_lines n lines config)
unfolding parse_lines
parse_lines-Holds n [] config h = h
parse_lines-Holds n (raw_line ∷ lines) config h =
    if_any (Holds IsAllowed) ((length line == 0) || (get_or line 0 0 == b'#'))
      (parse_lines-Holds (n + 1) lines config h)
      (and_then-Holds IsAllowed IsAllowed (at_line (n + 1) (parse_entry separator line config))
        (λ config'. parse_lines (n + 1) lines config')
        (at_line-Holds (n + 1) (parse_entry separator line config)
          (parse_entry-Holds separator line config h))
        (λ config' k. parse_lines-Holds (n + 1) lines config' k))
  where
    line : Bytes
    line = trimmed raw_line

    separator : Option ℕ
    separator = find_text line (codes "=") 0

either-IsPort :
    (has_port : Bool) (given port : ℕ)
    → PortGiven has_port given
    → IsPort port
    → IsPort (if has_port then given else port)
either-IsPort false given port h k = k
either-IsPort true given port h k = h

overridden-IsAllowed :
    (cli : CommandLine) (config : ServerConfig)
    → IsCommandLine cli
    → IsAllowed config
    → IsAllowed (overridden cli config)
overridden-IsAllowed cli config h k = record {
  port_allowed = either-IsPort cli.has_port cli.port config.port h.0 k.port_allowed;
  chunk_allowed = k.chunk_allowed;
  send_allowed = k.send_allowed;
  log_named = k.log_named;
  file_named = k.file_named;
}

named_file-Holds : (p : Parsed ServerConfig) → Holds IsAllowed p → Holds IsAllowed (named_file p)
named_file-Holds (failed e) h = tt
named_file-Holds (parsed config) h = h

build_config-Holds :
    (file : Option Bytes) (cli : CommandLine)
    → IsCommandLine cli
    → Holds IsAllowed (build_config file cli)
unfolding build_config parse_config_text
build_config-Holds file cli h = from file
  where
    start : ServerConfig
    start = record default_config { config_path = cli.config_path }

    start_allowed : IsAllowed start
    start_allowed = record {
      port_allowed = (omega arith, omega arith);
      chunk_allowed = (omega arith, omega arith);
      send_allowed = inl refl;
      log_named = omega arith;
      file_named = h.1;
    }

    from : (file' : Option Bytes) → Holds IsAllowed (build_config file' cli)
    from none = overridden-IsAllowed cli start h start_allowed
    from (some text) =
        and_then-Holds IsAllowed IsAllowed (named_file (parse_config_text text start))
          (λ config. parsed (overridden cli config))
          (named_file-Holds (parse_config_text text start)
            (parse_lines-Holds 0 (split_lines text) start start_allowed))
          (λ config k. overridden-IsAllowed cli config h k)

-- Whatever the arguments and the text of the configuration file, if it can be opened: a configuration
-- that is accepted has a port from 1024 to 65535, slots from 4 KB to 1 MB, a send buffer of 0 or
-- from 8 KB to 16 MB, and names for the log and for the configuration file that are not empty.
pub configured-Holds :
    (args : List Bytes) (file : Option Bytes)
    → Holds IsAllowed (and_then (parse_arguments args no_arguments) (build_config file))
configured-Holds args file =
    and_then-Holds IsCommandLine IsAllowed (parse_arguments args no_arguments) (build_config file)
      (parse_arguments-Holds args no_arguments (tt, omega arith))
      (λ cli h. build_config-Holds file cli h)
