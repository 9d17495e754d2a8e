-- ===== src/RegexParser/Ready/Regex.antt =====
-- `parse_regex` of src/regex_parser.c keeps the scanner ready.
use regex.RegexParser.Prescan.{Prescan}
