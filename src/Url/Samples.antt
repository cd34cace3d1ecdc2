-- ===== src/Url/Samples.antt =====
-- A small instance of the URL interface: the texts below one origin, which are their own URLs.
use basecrawl.Prelude.{[], none, some, Text, ◌++◌, codes, drop, starts_with, if◌then◌else◌}
use basecrawl.Url.{Parsed, url, relative, Urls}

abbrev pub origin : Text
origin = codes "https://a"

abbrev pub toy_parse : Text → Parsed Text
toy_parse t = if starts_with t origin then url t else relative

abbrev pub toy : Urls
toy = record {
  Url = Text;
  parse = toy_parse;
  scheme = λ _. codes "https";
  host_str = λ _. some (codes "a");
  port_or_known_default = λ _. some 443;
  port = λ _. none;
  username = λ _. [];
  password = λ _. none;
  path = drop 9;
  query = λ _. none;
  to_string = λ u. u;
  join = λ base t. if starts_with t origin then some t else some (origin ++ t);
  set_path = λ p _. origin ++ p;
  without_query = λ u. u;
  without_fragment = λ u. u;
}
