-- ===== src/Seal/Dns/Tests.antt =====
-- The theorems on DNS messages at concrete ones.
use basecrawl.Prelude.{
  ℕ, ◌%◌, ◌==◌, List, [], ◌∷◌, ◌++◌, codes, as_bytes, contains, split, is_empty,
  is_ascii_alphanumeric, ◌≡◌, refl, arith, if◌then◌else◌,
}
use basecrawl.Seal.{ok}
use basecrawl.Seal.Dns.{v4, be_bytes, query_header, build_query, parse_answers, address_of, trimmed}
use basecrawl.Seal.Dns.Names.{root, pointer}
use basecrawl.Seal.Dns.Packets.{Name, addresses}
use basecrawl.Seal.Dns.Responses.{Packet, packet_bytes, parse_answers-packet}
use basecrawl.Seal.Dns.Queries.{IsQuery, build_query-IsQuery}

abbrev query_bytes : List ℕ
query_bytes = query_header 7 ++ (1 ∷ 97 ∷ 2 ∷ 105 ∷ 111 ∷ 0 ∷ (be_bytes 1 ++ 0 ∷ 1 ∷ []))

built : build_query (codes " A.io. ") 1 7 ≡ ok query_bytes
unfolding build_query trimmed as_bytes split contains is_ascii_alphanumeric is_empty
built = refl

query_example : IsQuery (codes " A.io. ") 1 7 query_bytes
query_example = build_query-IsQuery (codes " A.io. ") 1 7 query_bytes built

abbrev name_a : Name
name_a = record { labels = (97 ∷ []) ∷ (105 ∷ 111 ∷ []) ∷ []; ending = root }

abbrev response : Packet
response = record {
  id_high = 0;
  id_low = 7;
  flags_high = 129;
  flags_low = 128;
  questions =
      record { name = name_a; type_high = 0; type_low = 1; class_high = 0; class_low = 1 } ∷ [];
  records =
      record {
        name = record { labels = []; ending = pointer 0 12 };
        rtype = 1;
        class_high = 0;
        class_low = 1;
        ttl_0 = 0;
        ttl_1 = 0;
        ttl_2 = 0;
        ttl_3 = 9;
        rdata = 10 ∷ 0 ∷ 0 ∷ 1 ∷ [];
      }
      ∷ [];
  counts_0 = 0;
  counts_1 = 0;
  counts_2 = 0;
  counts_3 = 0;
  rest = [];
}

packet_example :
    parse_answers (packet_bytes response) 1
    ≡ ok (if response.flags_low % 16 == 0 then addresses 1 response.records else [])
packet_example = parse_answers-packet response 1 (record {
  asked = (record { sized = (omega arith, (omega arith, tt)); ended = tt; few = omega arith }, tt);
  answered = (
    record {
      named = record { sized = tt; ended = omega arith; few = omega arith };
      typed = omega arith;
      sized = omega arith;
    },
    tt,
  );
  few_questions = omega arith;
  few_records = omega arith;
  fits = omega arith;
})

found : addresses 1 response.records ≡ v4 (10 ∷ 0 ∷ 0 ∷ 1 ∷ []) ∷ []
unfolding address_of
found = refl
