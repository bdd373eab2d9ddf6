-- ===== src/Serializers/Drafts/Kept.antt =====
-- The attachments of an accepted change of a draft.
use hedwig.Prelude.{
  Bool, any, false, nat_eq, ℕ, ◌==◌, ◌∙◌, ◌||◌, List, [], ap, arith, length, map, refl, sum_by, sym,
  ◌+◌, ◌++◌, ◌∷◌, ◌≡◌, ◌≤◌,
}
use hedwig.Exec.{ok}
use hedwig.Outbound.Drafts.{DraftItem, keep_ids, new_items}
use hedwig.Outbound.Rows.{NewAttachment}
use hedwig.Serializers.{validate_attachments}
use hedwig.Serializers.Accepted.{
  attachments_bounded, content_size, length-validate_attachments, ok_inv, refuse_inv, then_inv,
}
use hedwig.Serializers.Drafts.{
  DraftAttachment, new_inputs, references_in, validate_draft_attachments,
}

split_new :
    (items : List DraftAttachment) (made : List NewAttachment)
    → new_items (references_in items ++ map DraftItem.added made) ≡ made
unfolding new_items references_in
split_new [] [] = refl
split_new [] (a ∷ more) = ap (λ xs. a ∷ xs) (split_new [] more)
split_new (DraftAttachment.reference i ∷ items) made = split_new items made
split_new (DraftAttachment.fresh_item a ∷ items) made = split_new items made

split_kept :
    (items : List DraftAttachment) (made : List NewAttachment)
    → keep_ids (references_in items ++ map DraftItem.added made) ≡ keep_ids (references_in items)
unfolding keep_ids references_in
split_kept [] [] = refl
split_kept [] (a ∷ more) = split_kept [] more
split_kept (DraftAttachment.reference i ∷ items) made = ap (λ is. i ∷ is) (split_kept items made)
split_kept (DraftAttachment.fresh_item a ∷ items) made = split_kept items made

length-joined :
    (xs : List DraftItem) (made : List NewAttachment)
    → length (xs ++ map DraftItem.added made) ≡ length xs + length made
length-joined [] [] = omega arith
length-joined [] (a ∷ more) = omega (arith, length-joined [] more)
length-joined (x ∷ xs) made = omega (arith, length-joined xs made)

-- A row that an item refers to.
abbrev pub refers_to : ℕ → DraftAttachment → Bool
refers_to i (DraftAttachment.reference j) = j == i
refers_to i (DraftAttachment.fresh_item a) = false

kept_referred :
    (items : List DraftAttachment) (i : ℕ)
    → any (λ j. j == i) (keep_ids (references_in items)) ≡ any (refers_to i) items
unfolding keep_ids references_in
kept_referred [] i = refl
kept_referred (DraftAttachment.reference j ∷ items) i =
    ap (λ b. (j == i) || b) (kept_referred items i)
kept_referred (DraftAttachment.fresh_item a ∷ items) i = kept_referred items i

length-split :
    (items : List DraftAttachment)
    → length (references_in items) + length (new_inputs items) ≡ length items
unfolding references_in new_inputs
length-split [] = refl
length-split (DraftAttachment.reference j ∷ items) = omega (arith, length-split items)
length-split (DraftAttachment.fresh_item a ∷ items) = omega (arith, length-split items)

-- The attachments that a change of a draft is accepted with are as many as the request
-- names, at most ten, those kept included; a row is kept exactly if an item refers to it, and what is
-- added decodes to at most ten mebibytes together, in which the bytes of the rows kept do not count.
pub validate_draft_attachments-bounded :
    (items : List DraftAttachment) (out : List DraftItem)
    → validate_draft_attachments items ≡ ok out
    → (length out ≤ 10)
      × (length out ≡ length items)
      × ((i : ℕ) → any (λ j. j == i) (keep_ids out) ≡ any (refers_to i) items)
      × (sum_by content_size (new_items out) ≤ 10485760)
unfolding validate_draft_attachments
validate_draft_attachments-bounded items out h =
    let (made, checked, h₁) = then_inv (validate_attachments (new_inputs items)) _ out h in
    let (few, h₂) = refuse_inv _ _ _ out h₁ in
    let (bounded, small) = attachments_bounded (new_inputs items) made checked in
    let same = length-validate_attachments (new_inputs items) made checked in
    let split = length-split items in
    let joined = length-joined (references_in items) made in
    rw (sym (ok_inv _ out h₂)) (
      ground (arith, few, joined),
      omega (arith, joined, same, split),
      λ i. ap (any (λ j. j == i)) (split_kept items made) ∙ kept_referred items i,
      rw (split_new items made) small,
    )
