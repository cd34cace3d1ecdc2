-- ===== src/Robots/Parse.antt =====
-- `parse` of crates/basecrawl-core/src/robots.rs: from the text of a robots file to its groups.
pub mod Groups
pub mod Lines
pub mod RoundTrip
pub mod Written
pub mod Whole
pub mod Samples
use basecrawl.Prelude.{
  ℕ, Bool, true, false, not, ◌&&◌, ◌||◌, Option, none, some, List, [], ◌∷◌, ◌++◌, reverse, map,
  Text, before, split_once, length, ◌==◌, if◌then◌else◌, codes, text_eq, trim, to_ascii_lowercase,
  is_empty,
}

pub record Rule : Type 0 where
  pub allow : Bool
  pub path : Text

pub record Group : Type 0 where
  pub agents : List Text
  pub rules : List Rule

pub record ParsedRobots : Type 0 where
  pub groups : List Group
  pub sitemap_urls : List Text

abbrev newline : ℕ
newline = 10

abbrev carriage_return : ℕ
carriage_return = 13

-- a line that a newline ended, read in reverse
strip_return : Text → Text
strip_return [] = []
strip_return (c ∷ s) = if c == carriage_return then reverse s else reverse (c ∷ s)

-- `str::lines`; the line under way is held in reverse
lines_from : Text → Text → List Text
lines_from [] [] = []
lines_from (d ∷ cur) [] = reverse (d ∷ cur) ∷ []
lines_from cur (c ∷ s) =
    let ended = lines_from [] s in
    let longer = lines_from (c ∷ cur) s in if c == newline then strip_return cur ∷ ended else longer

pub lines : Text → List Text
unfolding lines_from strip_return
lines = lines_from []

-- What a line asks for; `skip` is a line that the parser passes over.
pub data Line : Type 0 where
  skip : Line
  sitemap user_agent : Text → Line
  rule : Bool → Text → Line

pub name_line : Text → Text → Line
name_line name value =
    if text_eq name (codes "sitemap") && not (is_empty value)
    then sitemap value
    else if text_eq name (codes "user-agent")
    then user_agent (to_ascii_lowercase value)
    else if text_eq name (codes "allow") || text_eq name (codes "disallow")
    then (if is_empty value then skip else rule (text_eq name (codes "allow")) value)
    else skip

pub read_line : Text → Line
unfolding before split_once name_line is_empty
read_line raw_line =
    let line = trim (before b'#' raw_line) in
    if is_empty line then skip else elim (split_once b':' line) [
      | none ↦ skip
      | some (name, value) ↦ name_line (to_ascii_lowercase (trim name)) (trim value)
    ]

-- `parsed` and `current`
pub record State : Type 0 where
  pub groups : List Group
  pub sitemap_urls : List Text
  pub current : Option Group

abbrev pub init : State
init = record { groups = []; sitemap_urls = []; current = none }

abbrev pub fresh : Text → Group
fresh agent = record { agents = agent ∷ []; rules = [] }

-- a `User-agent` line: it joins a group with no rules yet, and else starts a group
pub add_agent : Text → State → Option Group → State
add_agent agent s none = record s { current = some (fresh agent) }
add_agent agent s (some g) = elim g.rules [
  | [] ↦ record s { current = some (record g { agents = g.agents ++ agent ∷ [] }) }
  | _ ∷ _ ↦ record s { groups = s.groups ++ g ∷ []; current = some (fresh agent) }
]

-- an `Allow` or `Disallow` line: dropped before the first group
add_rule : Rule → State → Option Group → State
add_rule r s none = s
add_rule r s (some g) = elim g.agents [
  | [] ↦ s
  | _ ∷ _ ↦ record s { current = some (record g { rules = g.rules ++ r ∷ [] }) }
]

pub step : State → Line → State
unfolding add_agent add_rule
step s skip = s
step s (sitemap url) = record s { sitemap_urls = s.sitemap_urls ++ url ∷ [] }
step s (user_agent agent) = add_agent agent s s.current
step s (rule allow path) = add_rule (record { allow = allow; path = path }) s s.current

pub run : State → List Line → State
run s [] = s
run s (l ∷ ls) = run (step s l) ls

-- the group under way is pushed at the end
pub close : State → ParsedRobots
close s = elim s.current [
  | none ↦ record { groups = s.groups; sitemap_urls = s.sitemap_urls }
  | some g ↦ record { groups = s.groups ++ g ∷ []; sitemap_urls = s.sitemap_urls }
]

unfoldable pub parse : Text → ParsedRobots
unfolding lines read_line step run close
parse source = close (run init (map read_line (lines source)))
