-- ===== src/Postmark/Dns/Records.antt =====
-- The DNS rows of a domain against the answer that they are written from.
use hedwig.Prelude.{
  All, Bool, Bool-cases, List, [], any, any-update, arith, beq_comm, beq_refl, false, inl, inr,
  nat_eq, option_eq, refl, string_eq, sym, true, update_where, ℕ, ◌==◌, ◌∙◌, ◌∷◌, ◌≡◌,
}
use hedwig.Postmark.Dns.{
  Spec, checked_row, is_row_of, new_row, status_for, update_or_create, write_specs,
}
use hedwig.Tables.{DomainDnsRecord}

-- Specs of a list are for different purposes.
abbrev pub Purposes : List Spec → Type 0
Purposes [] = Unit
Purposes (x ∷ xs) = (any (λ y. y.purpose == x.purpose) xs ≡ false) × Purposes xs

pub absurd : {A : Type 0} (b : Bool) → b ≡ true → b ≡ false → A
absurd b h k = cc

module _ (now d : ℕ) where
  -- Wherever a row has the key of the spec, it has its status.
  abbrev pub Follows : Spec → List DomainDnsRecord → Type 0
  Follows x = All (λ r. is_row_of d x r ≡ true → r.status ≡ status_for x)

  abbrev pub Written : List DomainDnsRecord → Spec → Type 0
  Written rows x = (any (is_row_of d x) rows ≡ true) × Follows x rows

  purpose_of : (x : Spec) (r : DomainDnsRecord) → is_row_of d x r ≡ true → r.purpose ≡ x.purpose
  purpose_of x r h = (string_eq.beq_iff r.purpose x.purpose).0 (ground arith)

  same_purpose :
      (x y : Spec) (r : DomainDnsRecord)
      → is_row_of d x r ≡ true
      → is_row_of d y r ≡ true
      → (y.purpose == x.purpose) ≡ true
  same_purpose x y r h k =
      (string_eq.beq_iff y.purpose x.purpose).1 (sym (purpose_of y r k) ∙ purpose_of x r h)

  Follows-update :
      (x : Spec) (rows : List DomainDnsRecord)
      → Follows x (update_where (is_row_of d x) (checked_row now x) rows)
  Follows-update x [] = tt
  Follows-update x (r ∷ rows) = elim (Bool-cases (is_row_of d x r)) [
    | inl e ↦ (rw e (λ k. refl), Follows-update x rows)
    | inr e ↦ (rw e (λ k. absurd (is_row_of d x r) k e), Follows-update x rows)
  ]

  Follows-none :
      (x : Spec) (rows : List DomainDnsRecord) → any (is_row_of d x) rows ≡ false → Follows x rows
  Follows-none x [] h = tt
  Follows-none x (r ∷ rows) h =
      (λ k. absurd (is_row_of d x r) k (ground arith), Follows-none x rows (ground arith))

  own_row : (x : Spec) → is_row_of d x (new_row now d x) ≡ true
  own_row x =
      rw (beq_refl d, beq_refl x.record_type, beq_refl x.host, beq_refl x.value, beq_refl x.purpose)
        refl

  Written-own : (x : Spec) (rows : List DomainDnsRecord) → Written (update_or_create now d x rows) x
  Written-own x rows = elim (Bool-cases (any (is_row_of d x) rows)) [
    | inl e ↦ rw e (
      any-update (is_row_of d x) (is_row_of d x) (checked_row now x) (λ r. refl) rows ∙ e,
      Follows-update x rows,
    )
    | inr e ↦ rw e (rw (own_row x) refl, (λ k. refl, Follows-none x rows e))
  ]

  Follows-other :
      (x y : Spec) (rows : List DomainDnsRecord)
      → (y.purpose == x.purpose) ≡ false
      → Follows y rows
      → Follows y (update_where (is_row_of d x) (checked_row now x) rows)
  Follows-other x y [] apart h = tt
  Follows-other x y (r ∷ rows) apart (first, more) = elim (Bool-cases (is_row_of d x r)) [
    | inl e ↦ (
      rw e (λ k. absurd (y.purpose == x.purpose) (same_purpose x y r e k) apart),
      Follows-other x y rows apart more,
    )
    | inr e ↦ (rw e first, Follows-other x y rows apart more)
  ]

  Written-other :
      (x y : Spec) (rows : List DomainDnsRecord)
      → (y.purpose == x.purpose) ≡ false
      → Written rows y
      → Written (update_or_create now d x rows) y
  Written-other x y rows apart (there, h) = elim (Bool-cases (any (is_row_of d x) rows)) [
    | inl e ↦ rw e (
      any-update (is_row_of d y) (is_row_of d x) (checked_row now x) (λ r. refl) rows ∙ there,
      Follows-other x y rows apart h,
    )
    | inr e ↦ rw e (
      ground arith,
      (
        λ k.
            absurd (y.purpose == x.purpose) (same_purpose x y (new_row now d x) (own_row x) k)
              apart,
        h,
      ),
    )
  ]

  write_specs-earlier :
      (y : Spec) (xs : List Spec) (rows : List DomainDnsRecord)
      → any (λ x. x.purpose == y.purpose) xs ≡ false
      → Written rows y
      → Written (write_specs now d xs rows) y
  unfolding write_specs
  write_specs-earlier y [] rows apart h = h
  write_specs-earlier y (x ∷ xs) rows apart h =
      write_specs-earlier y xs (update_or_create now d x rows) (ground arith)
        (Written-other x y rows (beq_comm y.purpose x.purpose ∙ ground arith) h)

  pub write_specs-Written :
      (xs : List Spec) (rows : List DomainDnsRecord)
      → Purposes xs
      → All (Written (write_specs now d xs rows)) xs
  unfolding write_specs
  write_specs-Written [] rows apart = tt
  write_specs-Written (x ∷ xs) rows (first, more) = (
    write_specs-earlier x xs (update_or_create now d x rows) first (Written-own x rows),
    write_specs-Written xs (update_or_create now d x rows) more,
  )
