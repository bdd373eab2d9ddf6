-- ===== src/States/Batch.antt =====
-- The batch of `bulk_state` against one `upsert` for each message.
use hedwig.Prelude.{
  Bool, Bool-cases, Distinct, Distinct-select, List, [], all, any, any-select-false, any-update, ap,
  arith, false, first?, inl, inr, map, nat_beq, not, refl, select, sym, true, update_where, ℕ, ◌∙◌,
  ◌∷◌, ◌≡◌,
}
use hedwig.Exec.{Exec, ok, pure, ◌>>=◌}
use hedwig.States.{
  StatePatch, create_states, current, has_state, is_state, new_state, patched, save_states,
  update_states, upsert, upserted,
}
use hedwig.Tables.{Db, EmailMessage, EmailMessageUserState}

-- One `upsert` for each message.
unfoldable pub each_upsert :
    ℕ → ℕ → List EmailMessage → StatePatch → Exec (List EmailMessageUserState)
each_upsert now user [] p = pure []
each_upsert now user (m ∷ ms) p = do
  x ← upsert now user m p
  xs ← each_upsert now user ms p
  pure (x ∷ xs)

-- No message of the list has this identifier.
abbrev Without : ℕ → List EmailMessage → Type 0
Without i ms = any (λ y. nat_beq y.id i) ms ≡ false

select-agree :
    {A : Type 0} (k p q : A → Bool)
    → ((x : A) → k x ≡ false → p x ≡ q x)
    → (xs : List A) → any k xs ≡ false
    → select p xs ≡ select q xs
select-agree k p q h [] e = refl
select-agree k p q h (x ∷ xs) e =
    rw (h x (ground arith), select-agree k p q h xs (ground arith)) refl

map-agree :
    {A B : Type 0} (k : A → Bool) (f g : A → B)
    → ((x : A) → k x ≡ false → f x ≡ g x)
    → (xs : List A) → any k xs ≡ false
    → map f xs ≡ map g xs
map-agree k f g h [] e = refl
map-agree k f g h (x ∷ xs) e = rw (h x (ground arith), map-agree k f g h xs (ground arith)) refl

module _ (now user : ℕ) (p : StatePatch) where
  prepended : List EmailMessage → List EmailMessageUserState → List EmailMessageUserState
  prepended [] rows = rows
  prepended (m ∷ ms) rows = prepended ms (patched now p (new_state user m) ∷ rows)

  is_state-patched :
      (i : ℕ) (x : EmailMessageUserState) → is_state user i (patched now p x) ≡ is_state user i x
  is_state-patched i x = refl

  -- Another message's row is left alone.
  has_state-upserted :
      (m n : EmailMessage) (rows : List EmailMessageUserState)
      → nat_beq n.id m.id ≡ false
      → has_state user (upserted now user p m rows) n ≡ has_state user rows n
  has_state-upserted m n rows h = elim (Bool-cases (any (is_state user m.id) rows)) [
    | inl e ↦
        rw e (any-update (is_state user n.id) (is_state user m.id) (patched now p) (λ x. refl) rows)
    | inr e ↦ rw e (ground arith)
  ]

  first?-other :
      (i j : ℕ) (rows : List EmailMessageUserState)
      → nat_beq j i ≡ false
      → first? (is_state user j) (update_where (is_state user i) (patched now p) rows)
        ≡ first? (is_state user j) rows
  first?-other i j [] h = refl
  first?-other i j (x ∷ rows) h = ground (arith, first?-other i j rows h)

  current-upserted :
      (m n : EmailMessage) (rows : List EmailMessageUserState)
      → nat_beq n.id m.id ≡ false
      → current user n (upserted now user p m rows) ≡ current user n rows
  current-upserted m n rows h = elim (Bool-cases (any (is_state user m.id) rows)) [
    | inl e ↦ rw (e, first?-other m.id n.id rows h) refl
    | inr e ↦ rw e (ground arith)
  ]

  update-prepended :
      (i : ℕ) (ms : List EmailMessage) (rows : List EmailMessageUserState)
      → Without i ms
      → update_where (is_state user i) (patched now p) (prepended ms rows)
        ≡ prepended ms (update_where (is_state user i) (patched now p) rows)
  unfolding prepended
  update-prepended i [] rows h = refl
  update-prepended i (m ∷ ms) rows h =
      update-prepended i ms (patched now p (new_state user m) ∷ rows) (ground arith)
      ∙ ap (prepended ms) (ground arith)

  batch : List EmailMessage → List EmailMessageUserState → List EmailMessageUserState
  unfolding prepended update_states
  batch ms rows =
      update_states now user p (select (has_state user rows) ms)
        (prepended (select (λ m. not (has_state user rows m)) ms) rows)

  batch-next :
      (m : EmailMessage) (ms : List EmailMessage) (rows : List EmailMessageUserState)
      → Without m.id ms
      → batch (m ∷ ms) rows ≡ batch ms (upserted now user p m rows)
  unfolding batch prepended update_states
  batch-next m ms rows h =
      let same =
        select-agree (λ y. nat_beq y.id m.id) (has_state user (upserted now user p m rows))
          (has_state user rows) (λ y k. has_state-upserted m y rows k) ms h in
      let other =
        select-agree (λ y. nat_beq y.id m.id)
          (λ y. not (has_state user (upserted now user p m rows) y))
          (λ y. not (has_state user rows y)) (λ y k. ap not (has_state-upserted m y rows k)) ms h in
      rw (same, other)
        (elim (Bool-cases (any (is_state user m.id) rows)) [
          | inl e ↦ rw e (
              ap (update_states now user p (select (has_state user rows) ms)) (
                update-prepended m.id (select (λ y. not (has_state user rows y)) ms) rows (
                  any-select-false (λ y. nat_beq y.id m.id) (λ y. not (has_state user rows y)) ms
                    h)))
          | inr e ↦ rw e refl
        ])

  all-agree :
      {A : Type 0} (k p q : A → Bool)
      → ((x : A) → k x ≡ false → p x ≡ q x)
      → (xs : List A) → any k xs ≡ false
      → all p xs ≡ all q xs
  all-agree k p q h [] e = refl
  all-agree k p q h (x ∷ xs) e = rw (h x (ground arith), all-agree k p q h xs (ground arith)) refl

  -- New rows clash with no row.
  create-prepended :
      (ms : List EmailMessage) (s : Db)
      → Distinct (λ m. m.id) ms
      → all (λ m. not (has_state user s.user_states m)) ms ≡ true
      → create_states now user p ms s
        ≡ (ok tt, record s { user_states = prepended ms s.user_states })
  unfolding create_states prepended
  create-prepended [] s d h = refl
  create-prepended (m ∷ ms) s d h =
      let next : Db = record s { user_states = patched now p (new_state user m) ∷ s.user_states } in
      let apart =
        all-agree (λ y. nat_beq y.id m.id) (λ y. not (has_state user next.user_states y))
          (λ y. not (has_state user s.user_states y)) (λ y k. ground arith) ms d.0 in
      let clear : any (is_state user m.id) s.user_states ≡ false = ground arith in
      rw clear (create-prepended ms next d.1 (apart ∙ ground arith))

  all-select : (q : EmailMessage → Bool) (ms : List EmailMessage) → all q (select q ms) ≡ true
  all-select q [] = refl
  all-select q (m ∷ ms) = elim (Bool-cases (q m)) [
    | inl e ↦ rw (e, e) (all-select q ms)
    | inr e ↦ rw e (all-select q ms)
  ]

  answers : List EmailMessage → List EmailMessageUserState → List EmailMessageUserState
  answers ms rows = map (λ m. patched now p (current user m rows)) ms

  write_batch-batch :
      (ms : List EmailMessage) (s : Db)
      → Distinct (λ m. m.id) ms
      → save_states now user ms p s
        ≡ (ok (answers ms s.user_states), record s { user_states = batch ms s.user_states })
  unfolding save_states batch answers
  write_batch-batch ms s d =
      let q : EmailMessage → Bool = λ m. not (has_state user s.user_states m) in
      rw (create-prepended (select q ms) s (Distinct-select (λ m. m.id) q ms d) (all-select q ms))
        refl

  each_upsert-batch :
      (ms : List EmailMessage) (s : Db)
      → Distinct (λ m. m.id) ms
      → each_upsert now user ms p s
        ≡ (ok (answers ms s.user_states), record s { user_states = batch ms s.user_states })
  unfolding each_upsert upsert batch answers prepended update_states
  each_upsert-batch [] s d = refl
  each_upsert-batch (m ∷ ms) s d =
      let next : Db = record s { user_states = upserted now user p m s.user_states } in
      let same =
        map-agree (λ y. nat_beq y.id m.id) (λ y. patched now p (current user y next.user_states))
          (λ y. patched now p (current user y s.user_states))
          (λ y k. ap (patched now p) (current-upserted m y s.user_states k)) ms d.0 in
      rw (each_upsert-batch ms next d.1) (rw (same, batch-next m ms s.user_states d.0) refl)

-- For messages with distinct identifiers, the batch answers the rows and leaves the database that
-- one `upsert` for each message does, in the order of the messages, whichever of them the user has
-- a row for already; it never fails.
pub save_states-each_upsert :
    (now user : ℕ) (ms : List EmailMessage) (p : StatePatch) (s : Db)
    → Distinct (λ m. m.id) ms
    → (save_states now user ms p s ≡ each_upsert now user ms p s)
      × ((xs : List EmailMessageUserState) × ((save_states now user ms p s).0 ≡ ok xs))
save_states-each_upsert now user ms p s d =
    let e = write_batch-batch now user p ms s d in
    (e ∙ sym (each_upsert-batch now user p ms s d), (_, ap (λ r. r.0) e))
