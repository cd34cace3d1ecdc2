-- ===== src/Serve/Wire/Whole.antt =====
-- However a request is cut into reads, `read_http_request` of crates/basecrawl-core/src/serve.rs
-- gives what its bytes say.
use mathlib.Core.List.{append_assoc, append-nil}
use mathlib.Core.Option.{some-injective}
use basecrawl.Prelude.{
  ℕ, ◌+◌, ◌≤◌, ◌<◌, Bool, true, false, not, none, some, List, [], ◌∷◌, ◌++◌, length, length-append,
  take, drop, take-append, drop-append_add, all, is_empty, find, ltb, map, ◌≡◌, refl, sym, ap, ◌∙◌,
  subst, arith, Bool-cases, Option-cases, inl, inr, if_true, if_false, codes,
}
use basecrawl.Error.{Error, io}
use basecrawl.Error.Outcome.{Outcome, ok, err, ◌>>=◌, ◌>>◌, unless}
use basecrawl.Serve.Wire.{
  Read, got, blank_line, is_found, read_head, split_head, Head, parse_head, read_body,
  read_http_request,
}
use basecrawl.Serve.Wire.Found.{find-bound, find-append, longer_front}

abbrev pub joined : List (List ℕ) → List ℕ
joined [] = []
joined (chunk ∷ chunks) = chunk ++ joined chunks

-- no read is empty, which would be the end of the connection
abbrev pub are_reads : List (List ℕ) → Bool
are_reads chunks = all (λ chunk. not (is_empty chunk)) chunks

take_result :
    {A B : Type 0} (first : Outcome A) (next : A → Outcome B) {a : A}
    → first ≡ ok a
    → (first >>= next) ≡ next a
take_result first next h = ap (λ r. r >>= next) h

pass :
    {B : Type 0} (test : Bool) (error : Error) (rest : Outcome B)
    → test ≡ true
    → (unless test error >> rest) ≡ rest
pass true error rest h = refl
pass false error rest h = cc

not_empty : (head u : List ℕ) → is_empty ((head ++ blank_line) ++ u) ≡ false
unfolding is_empty
not_empty [] u = refl
not_empty (c ∷ head) u = refl

within : (n m max : ℕ) → n ≡ m → m ≤ max → not (ltb max n) ≡ true
within n m max e h = ground arith

take-length : (n : ℕ) (xs : List ℕ) → n ≡ length xs → take n xs ≡ xs
take-length n xs e =
    ap (λ (m : ℕ). take m xs) e ∙ ap (take (length xs)) (sym (append-nil xs)) ∙ take-append xs []

-- a body that comes in pieces
read_body-joined :
    (max : ℕ) (body u : List ℕ) (chunks : List (List ℕ))
    → length body ≤ max
    → are_reads chunks ≡ true
    → u ++ joined chunks ≡ body
    → read_body max (length body) u (map got chunks) ≡ ok body
unfolding read_body is_empty
read_body-joined max body u [] fits reads e = ap ok (sym (append-nil u) ∙ e)
read_body-joined max body u ([] ∷ chunks) fits reads e = cc
read_body-joined max body u ((b ∷ bs) ∷ chunks) fits reads e =
    let whole : (u ++ (b ∷ bs)) ++ joined chunks ≡ body =
      append_assoc u (b ∷ bs) (joined chunks) ∙ e in
    let size : length (u ++ ((b ∷ bs) ++ joined chunks)) ≡ length body = ap length e in
    let parts = length-append u ((b ∷ bs) ++ joined chunks) in
    let part = length-append u (b ∷ bs) in
    let rest = length-append (b ∷ bs) (joined chunks) in
    if_true (ltb (length u) (length body)) _ _ (ground arith)
    ∙ if_false (ltb max (length (u ++ (b ∷ bs)))) _ _ (ground arith)
    ∙ read_body-joined max body (u ++ (b ∷ bs)) chunks fits reads whole

module _ (head body : List ℕ)
    (first : find (head ++ blank_line) blank_line ≡ some (length head)) where
  abbrev whole : List ℕ
  whole = (head ++ blank_line) ++ body

  found : (u : List ℕ) → find ((head ++ blank_line) ++ u) blank_line ≡ some (length head)
  found u = find-append (head ++ blank_line) 13 (10 ∷ 13 ∷ 10 ∷ []) u (length head) first

  -- a beginning that is shorter than the head has no end of a head
  unfinished :
      (s t : List ℕ) → s ++ t ≡ whole → length s < length head + 4 → find s blank_line ≡ none
  unfinished s t e h = elim (Option-cases (find s blank_line)) [
    | inl n ↦ n
    | inr (i, at) ↦
        (let low = find-bound s 13 (10 ∷ 13 ∷ 10 ∷ []) i at in
          let same : i ≡ length head = some-injective i (length head) (
            sym (find-append s 13 (10 ∷ 13 ∷ 10 ∷ []) t i at)
            ∙ ap (λ (b : List ℕ). find b blank_line) e
            ∙ found body) in
          absurd (omega arith))
  ]

  pub record IsRead (r : Outcome (List ℕ × List Read)) : Type 0 where
    pub front : List ℕ
    pub rest : List (List ℕ)
    pub result : r ≡ ok ((head ++ blank_line) ++ front, map got rest)
    pub remaining : front ++ joined rest ≡ body
    pub reads : are_reads rest ≡ true

  read_head-IsRead :
      (buf : List ℕ) (chunks : List (List ℕ))
      → length head ≤ 65532
      → are_reads chunks ≡ true
      → buf ++ joined chunks ≡ whole
      → length buf < length head + 4
      → IsRead (read_head buf (map got chunks))
  unfolding read_head is_empty
  read_head-IsRead buf [] small reads e h =
      let sizes : length (buf ++ []) ≡ length whole = ap length e in
      let a = length-append buf [] in
      let b = length-append (head ++ blank_line) body in
      let c = length-append head blank_line in absurd (omega arith)
  read_head-IsRead buf ([] ∷ chunks) small reads e h = cc
  read_head-IsRead buf ((b ∷ bs) ∷ chunks) small reads e h =
      let e' : (buf ++ (b ∷ bs)) ++ joined chunks ≡ whole =
        append_assoc buf (b ∷ bs) (joined chunks) ∙ e in
      elim (Bool-cases (ltb (length (buf ++ (b ∷ bs))) (length head + 4))) [
        | inl short ↦
            (let low : length (buf ++ (b ∷ bs)) < length head + 4 = ground arith in
              subst IsRead
                (sym (
                  if_false (is_found (find (buf ++ (b ∷ bs)) blank_line)) _ _
                    (ap is_found (unfinished (buf ++ (b ∷ bs)) (joined chunks) e' low))
                  ∙ if_false (ltb 65536 (length (buf ++ (b ∷ bs)))) _ _ (ground arith)))
                (read_head-IsRead (buf ++ (b ∷ bs)) chunks small reads e' low))
        | inr long ↦
            (let sizes = length-append head blank_line in
              let (u, e1, e2) =
                longer_front (head ++ blank_line) body (buf ++ (b ∷ bs)) (joined chunks) e'
                  (ground arith) in
              record {
                front = u;
                rest = chunks;
                result =
                    if_true (is_found (find (buf ++ (b ∷ bs)) blank_line)) _ _
                      (ap (λ (s : List ℕ). is_found (find s blank_line)) e1 ∙ ap is_found (found u))
                    ∙ ap (λ (s : List ℕ). ok (s, map got chunks)) e1;
                remaining = e2;
                reads = reads;
              })
      ]

  split_head-whole : (u : List ℕ) → split_head ((head ++ blank_line) ++ u) ≡ ok (head, u)
  unfolding split_head
  split_head-whole u =
      let seam = append_assoc head blank_line u in
      ap
        (λ o. elim o [
          | none ↦ err (io (codes "incomplete HTTP headers"))
          | some i ↦
              ok (take i ((head ++ blank_line) ++ u), drop (i + 4) ((head ++ blank_line) ++ u))
        ])
        (found u)
      ∙ ap (λ (front : List ℕ). ok (front, drop (length head + 4) ((head ++ blank_line) ++ u)))
          (ap (take (length head)) seam ∙ take-append head (blank_line ++ u))
      ∙ ap (λ (rest : List ℕ). ok (head, rest))
          (ap (drop (length head + 4)) seam ∙ drop-append_add 4 head (blank_line ++ u))

-- A request whose head ends at its first blank line, within the bound of 64 KiB, and whose body is
-- as long as the head says, within the bound on bodies, is read as its head and its body, into
-- whatever reads its bytes are cut, none of them empty.
pub read_http_request-joined :
    (max : ℕ) (head body : List ℕ) (chunks : List (List ℕ)) (h : Head)
    → find (head ++ blank_line) blank_line ≡ some (length head)
    → length head ≤ 65532
    → parse_head head ≡ ok h
    → h.content_length ≡ length body
    → length body ≤ max
    → are_reads chunks ≡ true
    → joined chunks ≡ (head ++ blank_line) ++ body
    → read_http_request max (map got chunks)
      ≡ ok (record { method = h.method; path = h.path; headers = h.headers; body = body })
unfolding read_http_request
read_http_request-joined max head body chunks h first small parsed size fits reads e =
    let is = read_head-IsRead head body first [] chunks small reads e (omega arith) in
    take_result (read_head [] (map got chunks)) _ is.result
    ∙ pass (not (is_empty ((head ++ blank_line) ++ is.front))) _ _
        (ap not (not_empty head is.front))
    ∙ take_result (split_head ((head ++ blank_line) ++ is.front)) _
        (split_head-whole head body first is.front)
    ∙ take_result (parse_head head) _ parsed
    ∙ pass (not (ltb max h.content_length)) _ _
        (within h.content_length (length body) max size fits)
    ∙ take_result (read_body max h.content_length is.front (map got is.rest)) _ (
        ap (λ (n : ℕ). read_body max n is.front (map got is.rest)) size
        ∙ read_body-joined max body is.front is.rest fits is.reads is.remaining)
    ∙ ap
        (λ (b : List ℕ).
          ok (record { method = h.method; path = h.path; headers = h.headers; body = b }))
        (take-length h.content_length body size)
