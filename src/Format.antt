-- ===== src/Format.antt =====
-- crates/basecrawl-core/src/format.rs: the output formats, their tokens and their canonical order.
pub mod Tokens
pub mod Sorting
pub mod Order
mod Tests
use basecrawl.Prelude.{
  ℕ, Bool, true, false, ◌||◌, Option, none, some, List, [], ◌∷◌, ◌++◌, Text, codes, text_eq, trim,
  ltb, leb, ◌==◌, if◌then◌else◌,
}
use basecrawl.Error.{Error, unknown_format}
use basecrawl.Crawl.{Scraped, ok, err}

pub data Format : Type 0 where
  markdown html raw_html links metadata screenshot json : Format

abbrev pub all_formats : List Format
all_formats = markdown ∷ html ∷ raw_html ∷ links ∷ metadata ∷ screenshot ∷ json ∷ []

-- the declaration order, which `Ord` is derived from
abbrev pub rank : Format → ℕ
rank markdown = 0
rank html = 1
rank raw_html = 2
rank links = 3
rank metadata = 4
rank screenshot = 5
rank json = 6

unfoldable pub as_str : Format → Text
as_str markdown = codes "markdown"
as_str html = codes "html"
as_str raw_html = codes "rawHtml"
as_str links = codes "links"
as_str metadata = codes "metadata"
as_str screenshot = codes "screenshot"
as_str json = codes "json"

unfoldable pub find_token : List Format → Text → Option Format
unfolding as_str
find_token [] token = none
find_token (f ∷ fs) token = if text_eq (as_str f) token then some f else find_token fs token

unfoldable pub from_token : Text → Option Format
unfolding find_token
from_token token = find_token all_formats token

unfoldable pub join : List Format → Text
unfolding as_str
join [] = []
join (f ∷ []) = as_str f
join (f ∷ g ∷ fs) = as_str f ++ codes ", " ++ join (g ∷ fs)

unfoldable pub supported_list : Text
unfolding join
supported_list = join all_formats

abbrev pub default_set : List Format
default_set = markdown ∷ metadata ∷ []

-- the stable sort and the removal of consecutive duplicates
unfoldable pub insert : Format → List Format → List Format
insert f [] = f ∷ []
insert f (g ∷ gs) = if leb (rank f) (rank g) then f ∷ g ∷ gs else g ∷ insert f gs

unfoldable pub sort : List Format → List Format
unfolding insert
sort [] = []
sort (f ∷ fs) = insert f (sort fs)

unfoldable pub dedup : List Format → List Format
dedup [] = []
dedup (f ∷ []) = f ∷ []
dedup (f ∷ g ∷ gs) = let rest = dedup (g ∷ gs) in if rank f == rank g then rest else f ∷ rest

unfoldable pub normalize : List Format → List Format
unfolding sort dedup
normalize formats = dedup (sort formats)

unfoldable pub parse_tokens : List Text → List Format → Scraped (List Format)
unfolding from_token normalize supported_list
parse_tokens [] parsed = ok (normalize parsed)
parse_tokens (token ∷ tokens) parsed = elim (from_token (trim token)) [
  | none ↦ err (unknown_format (trim token) supported_list)
  | some f ↦ parse_tokens tokens (parsed ++ f ∷ [])
]

unfoldable pub parse_list : List Text → Scraped (List Format)
unfolding parse_tokens
parse_list tokens = parse_tokens tokens []
