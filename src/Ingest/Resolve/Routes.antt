-- ===== src/Ingest/Resolve/Routes.antt =====
-- Where inbound mail goes.
use hedwig.Prelude.Text.{partition}
use hedwig.Ingest.Resolve.{recipient_emails}
use hedwig.Prelude.{
  Bool, List, Mem, Mem-first?, Option, String, [], and_three, ap, arith, false, first?,
  first?-passes, if◌then◌else◌, inl, inr, nat_beq_iff, nat_eq, none, refl, some, true, ℕ, ◌==◌, ◌∙◌,
  ◌∷◌, ◌≡◌, ◌⊎◌,
}
use hedwig.Ingest.Resolve.{
  has_local_part, is_catch_all, is_receiving, is_receiving_alias, mailbox_of_alias, or_option,
  resolve_mailbox, route, route_first, with_recipient,
}
use hedwig.Normalized.{NormalizedInboundMessage}
use hedwig.Tables.{Db, Domain, Mailbox, MailboxAlias}

-- A stored mailbox of the domain is active and receives.
abbrev pub Receives : ℕ → Db → Mailbox → Type 0
Receives d s m =
    Mem m s.mailboxes × (m.domain ≡ d) × (m.is_active ≡ true) × (m.receive_enabled ≡ true)

-- A stored alias of the domain that is active and receives points to the stored mailbox.
abbrev pub Aliased : ℕ → Db → Mailbox → Type 0
Aliased d s m =
    (a : MailboxAlias) × Mem a s.aliases
    × (a.domain ≡ d)
    × (a.is_active ≡ true)
    × (a.can_receive ≡ true)
    × Mem m s.mailboxes
    × (m.id ≡ a.mailbox)

abbrev pub Routable : ℕ → Db → Mailbox → Type 0
Routable d s m = Receives d s m ⊎ Aliased d s m

some_eq : {A : Type 0} (a b : A) → Option.some a ≡ some b → a ≡ b
some_eq a b h = cc

alias_lem :
    (d : ℕ) (local : String) (s : Db) (m : Mailbox) (o : Option MailboxAlias)
    → first? (is_receiving_alias d local) s.aliases ≡ o
    → mailbox_of_alias o s ≡ some m
    → Routable d s m
alias_lem d local s m none e h = cc
alias_lem d local s m (some a) e h =
    let passes = first?-passes (is_receiving_alias d local) s.aliases a e in
    let in_domain : (a.domain == d) ≡ true = ground (arith, passes) in
    inr (
      a,
      Mem-first? (is_receiving_alias d local) s.aliases a e,
      (nat_beq_iff a.domain d).0 in_domain,
      ground arith,
      ground arith,
      Mem-first? (λ b. b.id == a.mailbox) s.mailboxes m h,
      (nat_beq_iff m.id a.mailbox).0 (first?-passes (λ b. b.id == a.mailbox) s.mailboxes m h),
    )

-- What the tests of both kinds of mailbox include.
found_Receives :
    (d : ℕ) (s : Db) (p : Mailbox → Bool) (m : Mailbox)
    → ((b : Mailbox) → p b ≡ true → is_receiving d b ≡ true)
    → first? p s.mailboxes ≡ some m
    → Routable d s m
found_Receives d s p m includes found =
    let (in_domain, active, receives) =
      and_three _ _ _ (includes m (first?-passes p s.mailboxes m found)) in
    inl (Mem-first? p s.mailboxes m found, (nat_beq_iff m.domain d).0 in_domain, active, receives)

direct_lem :
    (d : ℕ) (local : String) (s : Db) (m : Mailbox) (o : Option Mailbox)
    → first? (has_local_part d local) s.mailboxes ≡ o
    → or_option o (mailbox_of_alias (first? (is_receiving_alias d local) s.aliases) s) ≡ some m
    → Routable d s m
direct_lem d local s m none e h = alias_lem d local s m _ refl h
direct_lem d local s m (some b) e h =
    found_Receives d s (has_local_part d local) m (λ c k. ground arith) (e ∙ h)

if_some :
    {A : Type 0} (b : Bool) (o : Option A) (x : A) → (if b then o else none) ≡ some x → o ≡ some x
if_some true o x h = h
if_some false o x h = cc

route-Routable :
    (domain : Domain) (email : String) (s : Db) (m : Mailbox)
    → route domain email s ≡ some m
    → Routable domain.id s m
unfolding route
route-Routable domain email s m h =
    direct_lem domain.id (partition b'@' email).0 s m _ refl (if_some _ _ m h)

found_lem :
    (domain : Domain) (email : String) (rest : List String) (s : Db) (r : Mailbox × String)
    → ((r : Mailbox × String) → route_first domain rest s ≡ some r → Routable domain.id s r.0)
    → (o : Option Mailbox) → route domain email s ≡ o
    → elim o [ none ↦ route_first domain rest s | some b ↦ some (b, email) ] ≡ some r
    → Routable domain.id s r.0
found_lem domain email rest s r later none e h = later r h
found_lem domain email rest s r later (some b) e h =
    route-Routable domain email s r.0
      (e ∙ ap (λ (p : Mailbox × String). some p.0) (some_eq (b, email) r h))

route_first-Routable :
    (domain : Domain) (emails : List String) (s : Db) (r : Mailbox × String)
    → route_first domain emails s ≡ some r
    → Routable domain.id s r.0
unfolding route_first
route_first-Routable domain [] s r h = cc
route_first-Routable domain (email ∷ rest) s r h =
    found_lem domain email rest s r (route_first-Routable domain rest s) _ refl h

catch_lem :
    (d : ℕ) (email : String) (s : Db) (r : Mailbox × String) (o : Option Mailbox)
    → first? (is_catch_all d) s.mailboxes ≡ o
    → with_recipient email o ≡ some r
    → Routable d s r.0
catch_lem d email s r none e h = cc
catch_lem d email s r (some b) e h =
    found_Receives d s (is_catch_all d) r.0 (λ c k. ground arith)
      (e ∙ ap (λ (p : Mailbox × String). some p.0) (some_eq (b, email) r h))

either_lem :
    (domain : Domain) (emails : List String) (email : String) (s : Db) (r : Mailbox × String)
    (o : Option (Mailbox × String))
    → route_first domain emails s ≡ o
    → or_option o (with_recipient email (first? (is_catch_all domain.id) s.mailboxes)) ≡ some r
    → Routable domain.id s r.0
either_lem domain emails email s r none e h = catch_lem domain.id email s r _ refl h
either_lem domain emails email s r (some x) e h = route_first-Routable domain emails s r (e ∙ h)

-- Mail is only ever put into a stored mailbox that is active, of its domain, and receives, or into
-- the stored mailbox of a stored alias that is active, of its domain, and receives.
pub resolve_mailbox-Routable :
    (domain : Domain) (n : NormalizedInboundMessage) (s : Db) (r : Mailbox × String)
    → resolve_mailbox domain n s ≡ some r
    → Routable domain.id s r.0
unfolding resolve_mailbox
resolve_mailbox-Routable domain n s r h = either_lem domain (recipient_emails n) _ s r _ refl h
