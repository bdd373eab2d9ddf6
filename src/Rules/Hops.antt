-- ===== src/Rules/Hops.antt =====
-- How far a message is forwarded: the header on the wire counts the hops.
use hedwig.Prelude.{
  Bool-cases, List, Option, String, [], any, any-first?-false, any-weaken, ap, arith, false, first?,
  first?-passes, inl, inr, leb, min, nat_beq_iff, nat_eq, none, not, refl, some, suc, sym, true, ℕ,
  ◌+◌, ◌==◌, ◌||◌, ◌∙◌, ◌∷◌, ◌≡◌, ◌≤◌,
}
use hedwig.Exec.{Result, ok}
use hedwig.Postmark.Headers.{sent_headers}
use hedwig.Rules.Forwarding.{
  current_forward_depth, depth_of, forward_depth_header, forward_message, goes_back, header,
  max_forward_depth,
}
use hedwig.Rules.Wire.{forward_message-lacks, lacks, tells_other, wire_depth}
use hedwig.Sending.Attempts.{find_message, is_message}
use hedwig.Services.{Services}
use hedwig.Tables.{Db, EmailMessage}

-- A run of `forward_message` for `k` makes the row `y`, under a key that no row had.
pub record Forwards (services : Services) (k y : EmailMessage) : Type 0 where
  pub now : ℕ
  pub to_email : String
  pub reason : String
  pub before : Db
  pub key : ℕ
  pub free : find_message key before ≡ none
  pub made : find_message key (forward_message now services k to_email reason before).1 ≡ some y

-- `Relayed m x n`: `x` is what arrives after `n` hops. In each, a message that arrived is forwarded
-- by `forward_message`, and what arrives next has the depth header that is sent for the new row.
pub data Relayed (services : Services) (m : EmailMessage) : EmailMessage → ℕ → Type 0 where
  start : Relayed services m m 0
  hop :
      (k y x : EmailMessage) (n : ℕ)
      → Relayed services m k n
      → Forwards services k y
      → header forward_depth_header x.raw_headers ≡ header forward_depth_header (sent_headers y)
      → Relayed services m x (suc n)

none_found :
    (i : ℕ) (ms : List EmailMessage)
    → first? (is_message i) ms ≡ none
    → any (is_message i) ms ≡ false
none_found i [] h = refl
none_found i (m ∷ ms) h = elim (Bool-cases (m.id == i)) [
  | inl e ↦ ground (arith, e)
  | inr e ↦ ground (arith, e, none_found i ms)
]

not_both : (y : EmailMessage) (o : Option EmailMessage) → o ≡ none → o ≡ some y → ⊥
not_both y o h k = cc

module _ (services : Services) (k y : EmailMessage) (f : Forwards services k y) where
  open f use {now, to_email, reason, before, key}

  -- A message that travelled three hops is not forwarded.
  forwards_low : leb max_forward_depth (current_forward_depth k) ≡ false
  unfolding forward_message
  forwards_low =
      elim (Bool-cases (goes_back k to_email || leb max_forward_depth (current_forward_depth k))) [
        | inr e ↦ ground (arith, e)
        | inl e ↦
            let idle : forward_message now services k to_email reason before ≡ (ok tt, before) =
              rw e refl in
            absurd (
              not_both y (find_message key before) f.free
                (sym (ap (λ (r : Result (Unit {0}) × Db). find_message key r.1) idle) ∙ f.made))
      ]

  wire_depth-Forwards : wire_depth y ≡ current_forward_depth k + 1
  wire_depth-Forwards =
      let d = current_forward_depth k + 1 in
      let before_lacks : lacks (tells_other key d) before ≡ true = ap not (
        any-weaken (tells_other key d) (is_message key) (λ x h. ground arith) before.messages
          (none_found key before.messages f.free)) in
      let after = (forward_message now services k to_email reason before).1 in
      let after_lacks =
        (forward_message-lacks services k to_email reason forwards_low key now).kept before
          before_lacks in
      let agrees =
        any-first?-false (tells_other key d) (is_message key) after.messages y f.made
          (ground (arith, after_lacks)) in
      let keyed = first?-passes (is_message key) after.messages y f.made in
      (nat_beq_iff (wire_depth y) d).0 (ground (arith, agrees, keyed))

module _ (services : Services) (m : EmailMessage) where
  depth-hop :
      (k y x : EmailMessage)
      → Forwards services k y
      → header forward_depth_header x.raw_headers ≡ header forward_depth_header (sent_headers y)
      → current_forward_depth x ≡ current_forward_depth k + 1
  unfolding current_forward_depth wire_depth
  depth-hop k y x f same = ap depth_of same ∙ wire_depth-Forwards services k y f

  depth-Relayed :
      (x : EmailMessage) (n : ℕ)
      → Relayed services m x n
      → current_forward_depth x ≡ current_forward_depth m + n
  depth-Relayed x n start = omega arith
  depth-Relayed _ _ (hop k y x n' before f same) =
      omega (arith, depth-hop k y x f same, depth-Relayed k n' before)

  -- However mailboxes forward to each other, a message travels at most three hops from where it
  -- started, as many less as its own header already counts, when each hop is a run of
  -- `forward_message` that makes a new row, and what arrives has the depth header sent for that row.
  pub hops_bounded :
      (x : EmailMessage) (n : ℕ) → Relayed services m x n → n + min 3 (current_forward_depth m) ≤ 3
  hops_bounded x n start = ground arith
  hops_bounded _ _ (hop k y x n' before f same) =
      ground (arith, depth-Relayed k n' before, forwards_low services k y f)
