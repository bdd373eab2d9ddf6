-- ===== src/Enums/Access.antt =====
-- utils/enums.py: the choices of mailbox grants. The index of a choice decides equality.
use hedwig.Prelude.{ℕ, ◌≡◌, ◌↔◌, arith, nat_beq, Eq, true}

pub data AccessType : Type 0 where
  mailbox domain : AccessType

abbrev pub access_type_index : AccessType → ℕ
access_type_index AccessType.mailbox = 0
access_type_index AccessType.domain = 1

pub access_type_index_iff :
    (a b : AccessType) → (nat_beq (access_type_index a) (access_type_index b) ≡ true) ↔ (a ≡ b)
access_type_index_iff a b = ((λ h. ground arith), (λ h. ground arith))

instance abbrev pub access_type_eq : Eq AccessType
access_type_eq = record {
  beq = λ a b. nat_beq (access_type_index a) (access_type_index b);
  beq_iff = access_type_index_iff;
}

pub data MailboxPermissionType : Type 0 where
  read_only read_write full_access : MailboxPermissionType

abbrev pub mailbox_permission_type_index : MailboxPermissionType → ℕ
mailbox_permission_type_index MailboxPermissionType.read_only = 0
mailbox_permission_type_index MailboxPermissionType.read_write = 1
mailbox_permission_type_index MailboxPermissionType.full_access = 2

pub mailbox_permission_type_index_iff :
    (a b : MailboxPermissionType)
    → (nat_beq (mailbox_permission_type_index a) (mailbox_permission_type_index b) ≡ true) ↔ (a ≡ b)
mailbox_permission_type_index_iff a b = ((λ h. ground arith), (λ h. ground arith))

instance abbrev pub mailbox_permission_type_eq : Eq MailboxPermissionType
mailbox_permission_type_eq = record {
  beq = λ a b. nat_beq (mailbox_permission_type_index a) (mailbox_permission_type_index b);
  beq_iff = mailbox_permission_type_index_iff;
}
