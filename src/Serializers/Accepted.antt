-- ===== src/Serializers/Accepted.antt =====
-- What a request to send that was accepted satisfies.
use hedwig.Prelude.{
  Bool, List, Option, String, [], ap, arith, false, length, ltb-false→le, map, nat_eq, none, not,
  option_eq, or_else, refl, some, string_eq, suc, sum_by, sym, true, ℕ, ◌++◌, ◌+◌, ◌<◌, ◌==◌, ◌∙◌,
  ◌∷◌, ◌≡◌, ◌≤◌,
}
use hedwig.Access.{User}
use hedwig.Exec.{Result, err, ok}
use hedwig.Outbound.Compose.{Composed}
use hedwig.Outbound.Rows.{NewAttachment}
use hedwig.Postmark.Parse.{then_result}
use hedwig.Prelude.Base64.{decoded_size}
use hedwig.Sending.Suppression.{suppressed_emails}
use hedwig.Serializers.{
  AttachmentInput, SendRequest, check_item, check_items, item_of, refuse_if, sized_item,
  validate_attachments, validate_scheduled_at,
}
use hedwig.Serializers.Validate.{Validators, composed, max_recipients, validate}
use hedwig.Tables.{Db}

pub then_inv :
    {A B : Type 0} (r : Result A) (f : A → Result B) (b : B)
    → then_result r f ≡ ok b
    → (a : A) × (r ≡ ok a) × (f a ≡ ok b)
unfolding then_result
then_inv (ok a) f b h = (a, refl, h)
then_inv (err e) f b h = cc

pub refuse_inv :
    {A : Type 0} (b : Bool) (message : String) (rest : Result A) (c : A)
    → refuse_if b message rest ≡ ok c
    → (b ≡ false) × (rest ≡ ok c)
unfolding refuse_if
refuse_inv true message rest c h = cc
refuse_inv false message rest c h = (refl, h)

abbrev pub content_size : NewAttachment → ℕ
content_size a = or_else (decoded_size true a.content) 0

pub ok_inv : {A : Type 0} (a b : A) → Result.ok a ≡ Result.ok b → a ≡ b
ok_inv a b h = cc

check_item_size :
    (x : AttachmentInput) (a : NewAttachment × ℕ) → check_item x ≡ ok a → content_size a.0 ≡ a.1
check_item_size (AttachmentInput.attachment filename content_type content content_id) a h =
    let (p, h₁) = refuse_inv _ _ _ a h in
    let (q, h₂) = refuse_inv _ _ _ a h₁ in
    sized content (item_of filename content_type content content_id) (decoded_size true content)
      refl h₂
  where
    sized :
        (text : String) (b : NewAttachment) (o : Option ℕ)
        → decoded_size true b.content ≡ o
        → sized_item b o ≡ ok a
        → content_size a.0 ≡ a.1
    sized text b none e k = cc
    sized text b (some n) e k = rw (sym (ok_inv (b, n) a k)) (rw e refl)
check_item_size AttachmentInput.other a h = cc

check_items_total :
    (items : List AttachmentInput) (out : List NewAttachment × ℕ)
    → check_items items ≡ ok out
    → (length out.0 ≡ length items) × (sum_by content_size out.0 ≡ out.1)
unfolding check_items
check_items_total [] out h = rw (sym (ok_inv ([], 0) out h)) (refl, refl)
check_items_total (x ∷ xs) out h =
    let (a, ha, h₁) = then_inv (check_item x) _ out h in
    let (rest, hrest, h₂) = then_inv (check_items xs) _ out h₁ in
    let (n, total) = check_items_total xs rest hrest in
    let size = check_item_size x a ha in
    let e = ok_inv (a.0 ∷ rest.0, a.1 + rest.1) out h₂ in
    rw (sym e) (ap suc n, omega (arith, total, size))

-- How the arguments of an accepted request are bounded.
pub record Acceptable (now : ℕ) (v : Validators) (r : SendRequest) (s : Db) (c : Composed)
    : Type 0 where
  pub addressed : (length c.to_addresses == 0) ≡ false
  pub not_too_many :
      length (c.to_addresses ++ c.cc_addresses ++ c.bcc_addresses) ≤ max_recipients v.capabilities
  pub unsuppressed :
      suppressed_emails now r.mailbox
        (map (λ a. a.email) (c.to_addresses ++ c.cc_addresses ++ c.bcc_addresses))
        s
      ≡ []
  pub few_attachments : length c.attachments ≤ 10
  pub small_attachments : sum_by content_size c.attachments ≤ 10485760
  pub timely : (t : ℕ) → c.scheduled_at ≡ some t → (now < t) × (t ≤ now + 31536000)

no_length : {A : Type 0} (xs : List A) → not (length xs == 0) ≡ false → xs ≡ []
no_length [] h = refl
no_length (x ∷ xs) h = ground arith

pub attachments_bounded :
    (items : List AttachmentInput) (made : List NewAttachment)
    → validate_attachments items ≡ ok made
    → (length made ≤ 10) × (sum_by content_size made ≤ 10485760)
unfolding validate_attachments
attachments_bounded items made h =
    let (few, h₁) = refuse_inv _ _ _ made h in
    let (out, checked, h₂) = then_inv (check_items items) _ made h₁ in
    let (small, h₃) = refuse_inv _ _ _ made h₂ in
    let (same, total) = check_items_total items out checked in
    rw (sym (ok_inv out.0 made h₃)) (ground (arith, few, same), ground (arith, small, total))

pub length-validate_attachments :
    (items : List AttachmentInput) (made : List NewAttachment)
    → validate_attachments items ≡ ok made
    → length made ≡ length items
unfolding validate_attachments
length-validate_attachments items made h =
    let (few, h₁) = refuse_inv _ _ _ made h in
    let (out, checked, h₂) = then_inv (check_items items) _ made h₁ in
    let (small, h₃) = refuse_inv _ _ _ made h₂ in
    rw (sym (ok_inv out.0 made h₃)) (check_items_total items out checked).0

scheduled_bounded :
    (now : ℕ) (o p : Option ℕ)
    → validate_scheduled_at now o ≡ ok p
    → (t : ℕ) → p ≡ some t
    → (now < t) × (t ≤ now + 31536000)
unfolding validate_scheduled_at
scheduled_bounded now none p h t e = cc
scheduled_bounded now (some u) p h t e =
    let (late, h₁) = refuse_inv _ _ _ p h in
    let (near, h₂) = refuse_inv _ _ _ p h₁ in
    let made : Option.some u ≡ Option.some t = ok_inv (some u) p h₂ ∙ e in
    let same : u ≡ t = cc in rw (sym same) (ground (arith, late), ground (arith, near))

-- A request to send that is accepted gives arguments with at least one recipient and no more than
-- the provider allows, of whom none is suppressed for the mailbox; at most ten attachments, which
-- decode to at most ten mebibytes together; and no time to send but one within the next 365 days.
pub validate-Acceptable :
    (now : ℕ) (v : Validators) (user : User) (r : SendRequest) (s : Db) (c : Composed)
    → validate now v user r s ≡ ok c
    → Acceptable now v r s c
unfolding validate
validate-Acceptable now v user r s c h =
    let (metadata, _, h₁) = then_inv _ _ c h in
    let (scheduled_at, when, h₂) = then_inv _ _ c h₁ in
    let (rs, _, h₃) = then_inv _ _ c h₂ in
    let (addressed, h₄) = refuse_inv _ _ _ c h₃ in
    let (few, h₅) = refuse_inv _ _ _ c h₄ in
    let (_, h₆) = refuse_inv _ _ _ c h₅ in
    let (_, h₇) = refuse_inv _ _ _ c h₆ in
    let (_, h₈) = refuse_inv _ _ _ c h₇ in
    let (_, h₉) = refuse_inv _ _ _ c h₈ in
    let (clear, h₀) = refuse_inv _ _ _ c h₉ in
    let (attachments, checked, last) = then_inv (validate_attachments r.attachments) _ c h₀ in
    let (bounded, small) = attachments_bounded r.attachments attachments checked in
    rw (sym (ok_inv (composed user r rs metadata scheduled_at attachments) c last)) (record {
      addressed = addressed;
      not_too_many = ltb-false→le _ _ few;
      unsuppressed = no_length _ clear;
      few_attachments = bounded;
      small_attachments = small;
      timely = scheduled_bounded now r.scheduled_at scheduled_at when;
    })
