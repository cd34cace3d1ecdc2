-- ===== src/Serve/Wire/Tests.antt =====
-- A request that comes in three reads, and an answer that hides the secret.
use basecrawl.Prelude.{
  ℕ, List, [], ◌∷◌, ◌++◌, codes, length, find, starts_with, is_empty, ◌≡◌, refl, some, map,
  from_utf8_lossy, trim_start, split_once, trim, from_str_radix, to_ascii_lowercase, arith,
}
use basecrawl.Error.Outcome.{ok}
use basecrawl.Serve.Wire.{
  got, blank_line, Head, parse_head, read_http_request, split_lines, next_word, word, read_fields,
  extra_lines,
}
use basecrawl.Serve.Wire.Whole.{read_http_request-joined}

abbrev head : List ℕ
head = codes "POST /map HTTP/1.1" ++ 13 ∷ 10 ∷ [] ++ codes "Content-Length: 2"

abbrev chunks : List (List ℕ)
chunks =
    (codes "POST /map HTTP/1.1" ++ 13 ∷ 10 ∷ [])
    ∷ (codes "Content-Length: 2" ++ 13 ∷ 10 ∷ 13 ∷ [])
    ∷ (10 ∷ codes "{}")
    ∷ []

abbrev parts : Head
parts = record {
  method = codes "POST";
  path = codes "/map";
  headers = (codes "Content-Length", codes "2") ∷ [];
  content_length = 2;
}

ends : find (head ++ blank_line) blank_line ≡ some (length head)
unfolding find starts_with is_empty
ends = refl

parses : parse_head head ≡ ok parts
unfolding parse_head split_lines next_word word read_fields from_utf8_lossy trim_start split_once
    trim is_empty from_str_radix to_ascii_lowercase
parses = refl

read_example :
    read_http_request 1000 (map got chunks)
    ≡ ok (record {
      method = codes "POST";
      path = codes "/map";
      headers = (codes "Content-Length", codes "2") ∷ [];
      body = codes "{}";
    })
unfolding is_empty
read_example =
    read_http_request-joined 1000 head (codes "{}") chunks parts ends (omega arith) parses refl
      (omega arith) refl refl

hidden : extra_lines ((codes "X-Basecrawl-Serve-Secret", codes "s") ∷ []) ≡ []
unfolding extra_lines to_ascii_lowercase
hidden = refl
