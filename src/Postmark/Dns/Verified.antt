-- ===== src/Postmark/Dns/Verified.antt =====
-- When a domain counts as verified.
use hedwig.Prelude.Json.{Json}
use hedwig.Prelude.{
  All, All-select, All-weaken, Bool, Bool-cases, List, [], all, any, any-implies, any-select, arith,
  false, first?-update_self, if◌then◌else◌, inl, inr, length, nat_eq, not, option_eq, refl, select,
  some, string_eq, sym, true, ℕ, ◌&&◌, ◌++◌, ◌==◌, ◌∙◌, ◌∷◌, ◌≡◌,
}
use hedwig.Enums.{
  DnsRecordStatus, DomainStatus, dns_record_status_eq, domain_status_eq, email_status_eq,
  provider_webhook_status_eq, send_attempt_status_eq,
}
use hedwig.Postmark.Dns.{
  Spec, all_verified, applied, apply_domain_response, is_kept, is_row_of, record_specs, status_for,
  write_specs,
}
use hedwig.Postmark.Dns.Records.{Follows, Purposes, Written, absurd, write_specs-Written}
use hedwig.Sending.Dispatch.{find_domain}
use hedwig.Tables.{Db, Domain, DomainDnsRecord}

abbrev pub is_verified_row : DomainDnsRecord → Bool
is_verified_row r = r.status == DnsRecordStatus.verified

module _ (now d : ℕ) where
  abbrev Matched : List Spec → List DomainDnsRecord → Type 0
  Matched xs = All (λ r. any (λ x. is_row_of d x r) xs ≡ true)

  -- A row that one of the specs matches has the status of a spec that is verified.
  status_lem :
      (r : DomainDnsRecord) (xs : List Spec)
      → All (λ x. is_row_of d x r ≡ true → r.status ≡ status_for x) xs
      → all (λ x. x.verified) xs ≡ true
      → any (λ x. is_row_of d x r) xs ≡ true
      → is_verified_row r ≡ true
  status_lem r [] f v m = cc
  status_lem r (x ∷ xs) (f, fs) v m = elim (Bool-cases (is_row_of d x r)) [
    | inl e ↦ let good : x.verified ≡ true = ground arith in rw (f e, good) refl
    | inr e ↦ status_lem r xs fs (ground arith) (ground arith)
  ]

  rows_verified :
      (xs : List Spec) (rows : List DomainDnsRecord)
      → All (λ x. Follows now d x rows) xs
      → all (λ x. x.verified) xs ≡ true
      → Matched xs rows
      → all is_verified_row rows ≡ true
  rows_verified xs [] f v m = refl
  rows_verified xs (r ∷ rows) f v (first, more) =
      let here = status_lem r xs (All-weaken _ _ (λ x p. p.0) xs f) v first in
      let rest = rows_verified xs rows (All-weaken _ _ (λ x p. p.1) xs f) v more in
      rw (here, rest) refl

  -- The row of a spec that is not verified is not verified.
  row_pending :
      (x : Spec) (rows : List DomainDnsRecord)
      → x.verified ≡ false
      → any (is_row_of d x) rows ≡ true
      → Follows now d x rows
      → all is_verified_row rows ≡ false
  row_pending x [] v there f = cc
  row_pending x (r ∷ rows) v there (f, fs) = elim (Bool-cases (is_row_of d x r)) [
    | inl e ↦ rw (f e, v) refl
    | inr e ↦ let rest = row_pending x rows v (ground arith) fs in ground arith
  ]

  abbrev Present : Spec → List DomainDnsRecord → Type 0
  Present x rows = (any (is_row_of d x) rows ≡ true) × Follows now d x rows

  some_pending :
      (xs : List Spec) (rows : List DomainDnsRecord)
      → All (λ x. Present x rows) xs
      → all (λ x. x.verified) xs ≡ false
      → all is_verified_row rows ≡ false
  some_pending [] rows p v = cc
  some_pending (x ∷ xs) rows (p, ps) v = elim (Bool-cases x.verified) [
    | inl e ↦ some_pending xs rows ps (ground arith)
    | inr e ↦ row_pending x rows e p.0 p.1
  ]

  no_rows : (rows : List DomainDnsRecord) → Matched [] rows → rows ≡ []
  no_rows [] m = refl
  no_rows (r ∷ rows) m = absurd false m.0 refl

  some_row :
      (x : Spec) (rows : List DomainDnsRecord)
      → any (is_row_of d x) rows ≡ true
      → (length rows == 0) ≡ false
  some_row x [] h = cc
  some_row x (r ∷ rows) h = ground arith

  abbrev pub rows_all_verified : List DomainDnsRecord → Bool
  rows_all_verified rows = not (length rows == 0) && all is_verified_row rows

  all_verified-rows :
      (xs : List Spec) (rows : List DomainDnsRecord)
      → All (λ x. Present x rows) xs
      → Matched xs rows
      → all_verified xs ≡ rows_all_verified rows
  all_verified-rows [] rows p m = rw (no_rows rows m) refl
  all_verified-rows (x ∷ xs) rows p m =
      let some_there = some_row x rows p.0.0 in
      elim (Bool-cases (all (λ y. y.verified) (x ∷ xs))) [
        | inl e ↦
            e
            ∙ sym (
                rw
                  (
                    some_there,
                    rows_verified (x ∷ xs) rows (All-weaken _ _ (λ y q. q.1) (x ∷ xs) p) e m,
                  )
                  refl)
        | inr e ↦ e ∙ sym (rw (some_there, some_pending (x ∷ xs) rows p e) refl)
      ]

  -- What is kept of the rows of the domain.
  abbrev left : List Spec → List DomainDnsRecord → List DomainDnsRecord
  left xs rows = select (λ r. r.domain == d) (select (is_kept d xs) rows)

  left-Matched : (xs : List Spec) (rows : List DomainDnsRecord) → Matched xs (left xs rows)
  left-Matched xs [] = tt
  left-Matched xs (r ∷ rows) = elim (Bool-cases (is_kept d xs r)) [
    | inr e ↦ rw e (left-Matched xs rows)
    | inl e ↦ elim (Bool-cases (r.domain == d)) [
      | inl k ↦ rw (e, k) (ground arith, left-Matched xs rows)
      | inr k ↦ rw (e, k) (left-Matched xs rows)
    ]
  ]

  -- A row with the key of a spec is one of the domain.
  left-any :
      (xs : List Spec) (x : Spec) (rows : List DomainDnsRecord)
      → ((r : DomainDnsRecord) → is_row_of d x r ≡ true → any (λ y. is_row_of d y r) xs ≡ true)
      → any (is_row_of d x) rows ≡ true
      → any (is_row_of d x) (left xs rows) ≡ true
  left-any xs x rows own h =
      any-select (is_row_of d x) (λ r. r.domain == d) (select (is_kept d xs) rows)
      ∙ any-select (λ r. r.domain == d && is_row_of d x r) (is_kept d xs) rows
      ∙ any-implies (is_row_of d x) (λ r. is_kept d xs r && (r.domain == d && is_row_of d x r))
          (λ r k. ground (arith, own r k)) rows h

  members :
      (xs : List Spec)
      → All
          (λ x.
            (r : DomainDnsRecord) → is_row_of d x r ≡ true → any (λ y. is_row_of d y r) xs ≡ true)
          xs
  members [] = tt
  members (x ∷ xs) =
      (λ r k. ground arith, All-weaken _ _ (λ y h r k. ground (arith, h r k)) xs (members xs))

  left-Present :
      (xs : List Spec) (rows : List DomainDnsRecord)
      → Purposes xs
      → All (λ x. Present x (left xs (write_specs now d xs rows))) xs
  left-Present xs rows apart =
      let after = write_specs now d xs rows in
      both xs (write_specs-Written now d xs rows apart) (members xs)
    where
      both :
          (ys : List Spec)
          → All (Written now d (write_specs now d xs rows)) ys
          → All
              (λ x.
                (r : DomainDnsRecord)
                → is_row_of d x r ≡ true
                → any (λ y. is_row_of d y r) xs ≡ true)
              ys
          → All (λ x. Present x (left xs (write_specs now d xs rows))) ys
      both [] w m = tt
      both (y ∷ ys) (w, ws) (m, ms) =
          let after = write_specs now d xs rows in
          (
            (
              left-any xs y after m w.0,
              All-select _ (λ r. r.domain == d) (select (is_kept d xs) after)
                  (All-select _ (is_kept d xs) after w.1),
            ),
            both ys ws ms,
          )

abbrev pub rows_of : ℕ → Db → List DomainDnsRecord
rows_of d s = select (λ r. r.domain == d) s.dns_records

apart_three :
    (b c e : Bool) (x y z : Spec)
    → (y.purpose == x.purpose) ≡ false
    → (z.purpose == x.purpose) ≡ false
    → (z.purpose == y.purpose) ≡ false
    → Purposes
        ((if b then x ∷ [] else []) ++ (if c then y ∷ [] else []) ++ (if e then z ∷ [] else []))
apart_three true true true x y z xy xz yz = (rw (xy, xz) refl, (rw yz refl, (refl, tt)))
apart_three true true false x y z xy xz yz = (rw xy refl, (refl, tt))
apart_three true false true x y z xy xz yz = (rw xz refl, (refl, tt))
apart_three true false false x y z xy xz yz = (refl, tt)
apart_three false true true x y z xy xz yz = (rw yz refl, (refl, tt))
apart_three false true false x y z xy xz yz = (refl, tt)
apart_three false false true x y z xy xz yz = (refl, tt)
apart_three false false false x y z xy xz yz = tt

is_verified-status :
    (b : Bool)
    → ((if b then DomainStatus.verified else DomainStatus.pending) == DomainStatus.verified) ≡ b
is_verified-status true = refl
is_verified-status false = refl

specs_apart : (body : Json) → Purposes (record_specs body)
unfolding record_specs
specs_apart body = apart_three _ _ _ _ _ _ refl refl refl

-- After the answer for a stored domain is applied, the domain counts as verified exactly if it has
-- DNS rows and all of them are verified.
pub apply_domain_response-verified :
    (now : ℕ) (domain : Domain) (body : Json) (s : Db)
    → find_domain domain.id s ≡ some domain
    → let s' = (apply_domain_response now domain body s).1 in
      (x : Domain) × (find_domain domain.id s' ≡ some x)
      × ((x.status == DomainStatus.verified) ≡ (
          not (length (rows_of domain.id s') == 0) && all is_verified_row (rows_of domain.id s')))
unfolding apply_domain_response
apply_domain_response-verified now domain body s found =
    let d = domain.id in
    let specs = record_specs body in
    let after = write_specs now d specs s.dns_records in
    (
      applied now body specs domain,
      first?-update_self (λ x. x.id == d) (applied now body specs) (λ x. refl) s.domains domain
          found,
      is_verified-status (all_verified specs)
          ∙ all_verified-rows now d specs (left now d specs after)
              (left-Present now d specs s.dns_records (specs_apart body))
              (left-Matched now d specs after),
    )
