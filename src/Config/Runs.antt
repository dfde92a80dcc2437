-- ===== src/Config/Runs.antt =====
-- A server that is started with a port and a configuration file of three lines.
use log_transfer_analyzer.Prelude.{◌≡◌, refl, true, List, [], ◌∷◌, Bytes, codes, some}
use log_transfer_analyzer.Config.{
  parsed, failed, out_of_range, in_line, in_file, no_arguments, and_then, parse_arguments,
  apply_entry, parse_entry, parse_lines, parse_config_text, build_config,
}
use log_transfer_analyzer.Config.Allowed.{Holds, IsAllowed, configured-Holds}

abbrev arguments : List Bytes
arguments = codes "-p" ∷ codes "8080" ∷ codes "-d" ∷ []

abbrev file : Bytes
file = codes "# sweep\nport = 9000\nchunk_size = 8192\n"

configured-Holds_example :
    Holds IsAllowed (and_then (parse_arguments arguments no_arguments) (build_config (some file)))
configured-Holds_example = configured-Holds arguments (some file)

-- The port of the command line is stronger than that of the file.
stronger :
    and_then (parse_arguments arguments no_arguments) (build_config (some file))
    ≡ parsed (record {
      port = 8080;
      daemonize = true;
      chunk_size = 8192;
      send_buffer_size = 0;
      log_path = codes "./server.log";
      config_path = codes "./server.conf";
    })
unfolding parse_arguments build_config parse_config_text parse_lines parse_entry apply_entry
stronger = refl

-- A size below the limit, in the second line.
too_small :
    and_then
      (parse_arguments [] no_arguments)
      (build_config (some (codes "port=9000\nchunk_size=100\n")))
    ≡ failed (in_file (in_line 2 out_of_range))
unfolding parse_arguments build_config parse_config_text parse_lines parse_entry apply_entry
too_small = refl
