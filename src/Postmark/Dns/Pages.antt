-- ===== src/Postmark/Dns/Pages.antt =====
-- The search through the pages of domains comes to an end.
use hedwig.Prelude.Json.{Json, get}
use hedwig.Prelude.{
  Bool, Option, String, arith, false, first?, leb, none, refl, some, suc, true, zero, ℕ, ◌*◌, ◌+◌,
  ◌/◌, ◌<◌, ◌≡◌, ◌≢◌, ◌≤◌,
}
use hedwig.Exec.{Result, err, ok}
use hedwig.Postmark.{items_of}
use hedwig.Postmark.Dns.{DomainsApi, Search, find_from, named, number_of, on_entry, on_page, page}

-- No page reports more domains.
abbrev pub AtMost : DomainsApi → String → ℕ → Type 0
AtMost api token total =
    (offset : ℕ) (body : Json)
    → page api token offset ≡ ok body
    → number_of (get "TotalCount" body) ≤ total

on_entry_finished :
    (o : Option Json) (is_last : Bool) (rest : Search)
    → (is_last ≡ false → rest ≢ Search.unfinished)
    → on_entry o is_last rest ≢ Search.unfinished
on_entry_finished (some entry) is_last rest h = λ k. cc
on_entry_finished none true rest h = λ k. cc
on_entry_finished none false rest h = h refl

on_page_finished :
    (name : String) (offset : ℕ) (r : Result Json) (rest : Search)
    → ((body : Json)
        → r ≡ ok body
        → leb (number_of (get "TotalCount" body)) (offset + 300) ≡ false
        → rest ≢ Search.unfinished)
    → on_page name offset r rest ≢ Search.unfinished
on_page_finished name offset (err e) rest h = λ k. cc
on_page_finished name offset (ok body) rest h =
    on_entry_finished (first? (named name) (items_of (get "Domains" body)))
      (leb (number_of (get "TotalCount" body)) (offset + 300)) rest (h body refl)

leb-false→lt : (a b : ℕ) → leb a b ≡ false → b < a
leb-false→lt a b h = ground arith

impossible : (total offset n : ℕ) → total ≤ offset + 300 * 1 → n ≤ total → offset + 300 < n → ⊥
impossible total offset n h few more = omega arith

find_from-finishes :
    (api : DomainsApi) (token name : String) (total : ℕ)
    → AtMost api token total
    → (fuel offset : ℕ) → total ≤ offset + 300 * suc fuel
    → find_from (suc fuel) api token name offset ≢ Search.unfinished
unfolding find_from
find_from-finishes api token name total bound zero offset h =
    on_page_finished name offset (page api token offset) _ (λ body e l.
      let few = bound offset body e in
      let more = leb-false→lt _ _ l in
      elim (impossible total offset (number_of (get "TotalCount" body)) h few more) [ ])
find_from-finishes api token name total bound (suc fuel) offset h =
    on_page_finished name offset (page api token offset) _
      (λ body e l. find_from-finishes api token name total bound fuel (offset + 300) (omega arith))

-- Whatever the account holds, as long as no page reports more than `total` domains, a search from
-- the first page with one page of fuel for each 300 of them and one more finishes: it finds the
-- domain, finds that it is absent, or fails.
pub find_from-terminates :
    (api : DomainsApi) (token name : String) (total : ℕ)
    → AtMost api token total
    → find_from (suc (total / 300)) api token name 0 ≢ Search.unfinished
find_from-terminates api token name total bound =
    find_from-finishes api token name total bound (total / 300) 0 (omega arith)
