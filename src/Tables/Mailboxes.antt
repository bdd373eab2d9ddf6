-- ===== src/Tables/Mailboxes.antt =====
-- hedwig/models.py: mailboxes and what is configured for them. Optional text is the empty text.
use hedwig.Prelude.{ℕ, String, Bool, Option}
use hedwig.Enums.{AccessType, MailboxPermissionType}

pub record Mailbox : Type 0 where
  pub id : ℕ
  pub domain : ℕ
  pub local_part : String
  pub display_name : String
  pub is_catch_all : Bool
  pub forward_to : String
  pub send_enabled : Bool
  pub receive_enabled : Bool
  pub quota_bytes : ℕ
  pub used_bytes : ℕ
  pub is_active : Bool

pub record MailboxAlias : Type 0 where
  pub id : ℕ
  pub mailbox : ℕ
  pub domain : ℕ
  pub local_part : String
  pub can_send : Bool
  pub can_receive : Bool
  pub is_active : Bool

pub record SenderIdentity : Type 0 where
  pub id : ℕ
  pub mailbox : ℕ
  pub email : String
  pub display_name : String
  pub is_default : Bool
  pub is_active : Bool

pub record UserMailboxAccess : Type 0 where
  pub user : ℕ
  pub access_type : AccessType
  pub mailbox : Option ℕ
  pub domain : Option ℕ
  pub permission : MailboxPermissionType
  pub expires_at : Option ℕ
  pub is_active : Bool

pub record EmailLabel : Type 0 where
  pub id : ℕ
  pub mailbox : ℕ
  pub name : String

pub record EmailMessageLabel : Type 0 where
  pub message : ℕ
  pub label : ℕ

-- The keys of `MailboxRule.conditions` that the code supports, each present or not.
pub record Conditions : Type 0 where
  pub from_contains : Option String
  pub subject_contains : Option String
  pub to_contains : Option String
  pub cc_contains : Option String
  pub has_attachment : Option Bool
  pub has_label : Option String

-- The keys of `MailboxRule.actions`; an absent text is empty.
pub record Actions : Type 0 where
  pub add_label : String
  pub move_to_folder : String
  pub forward_to : String
  pub stop : Bool
  pub continue : Option Bool

pub record MailboxRule : Type 0 where
  pub mailbox : ℕ
  pub name : String
  pub priority : ℕ
  pub conditions : Conditions
  pub actions : Actions
  pub is_active : Bool

pub record SuppressedAddress : Type 0 where
  pub domain : ℕ
  pub mailbox : Option ℕ
  pub email : String
  pub reason : String
  pub source : String
  pub raw_event : Option ℕ
  pub expires_at : Option ℕ

pub record Contact : Type 0 where
  pub mailbox : ℕ
  pub email : String
  pub name : String
  pub times_contacted : ℕ
  pub last_contacted_at : Option ℕ
