-- ===== src/Skips/Shown.antt =====
-- How many of the skips a report shows.
use log_transfer_analyzer.Prelude.{◌-◌, ◌++◌, map, List, length, take}
use log_transfer_analyzer.Skips.{Sample, Skip, escape_non_printable}

-- The sample of a skip: the first 200 bytes of the line, in printable characters.
abbrev pub sample_of : Skip → Sample
sample_of s = record {
  reason = s.reason;
  offset = s.offset;
  text = escape_non_printable (take 200 s.text);
}

-- What is left of the limit, filled from a list of skips.
abbrev filled : List Sample → List Skip → List Sample
filled samples skips = samples ++ map sample_of (take (100 - length samples) skips)
