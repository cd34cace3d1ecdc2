-- ===== src/Batch/Tests.antt =====
-- The theorems on the batch at two runs: one of two workers, of which one dies, and one to the end.
use basecrawl.Prelude.{codes, none, some, [], ◌∷◌, Text, List, ◌≡◌, refl, arith}
use basecrawl.Proof.{ScrapeProof}
use basecrawl.Error.{invalid_url}
use basecrawl.Crawl.{Scraped, err}
use basecrawl.Batch.{Pool, idle, stopped, Step, death, Reach, Runs, item_of, collect, worker_count}
use basecrawl.Batch.Safety.{Items, batch-Items}
use basecrawl.Batch.Complete.{Answers, batch-Answers}

abbrev two_urls : List Text
two_urls = codes "https://a/" ∷ codes "https://b/" ∷ []

abbrev Refuses : Text → Scraped ScrapeProof → Type 0
Refuses u r = r ≡ err (invalid_url u)

abbrev after_death : Pool
after_death = record {
  next = 2;
  workers = stopped ∷ idle ∷ [];
  results =
      none ∷ some (item_of 1 (codes "https://b/") (err (invalid_url (codes "https://b/")))) ∷ [];
}

-- Both workers take a job, the first dies, and the second ends its own.
reaches : Reach two_urls Refuses 2 after_death
unfolding worker_count
reaches =
    Reach.next
      (Reach.lose
        (Reach.next (Reach.next Reach.begin (Step.take 0 (codes "https://a/") refl refl))
          (Step.take 1 (codes "https://b/") refl refl))
        (death 0 0 (codes "https://a/") refl))
      (Step.done 1 1 (codes "https://b/") (err (invalid_url (codes "https://b/"))) refl refl)

items_example : Items Refuses 0 two_urls (collect 0 two_urls after_death.results)
items_example = batch-Items two_urls Refuses 2 after_death reaches

abbrev one_url : List Text
one_url = codes "https://a/" ∷ []

abbrev at_end : Pool
at_end = record {
  next = 1;
  workers = stopped ∷ [];
  results = some (item_of 0 (codes "https://a/") (err (invalid_url (codes "https://a/")))) ∷ [];
}

ends : Runs one_url Refuses 4 at_end
unfolding worker_count
ends =
    Runs.next
      (Runs.next (Runs.next Runs.begin (Step.take 0 (codes "https://a/") refl refl))
        (Step.done 0 0 (codes "https://a/") (err (invalid_url (codes "https://a/"))) refl refl))
      (Step.stop 0 refl (omega arith))

all_done_example : Answers Refuses 0 one_url (collect 0 one_url at_end.results)
all_done_example = batch-Answers one_url Refuses 4 at_end ends (refl, tt)
