-- ===== src/Enums/Mail.antt =====
-- utils/enums.py: the choices of the mail side. The index of a choice decides equality.
use hedwig.Prelude.{ℕ, ◌≡◌, ◌↔◌, arith, nat_beq, Eq, true}

pub data DirectionType : Type 0 where
  inbound outbound : DirectionType

abbrev pub direction_type_index : DirectionType → ℕ
direction_type_index DirectionType.inbound = 0
direction_type_index DirectionType.outbound = 1

pub direction_type_index_iff :
    (a b : DirectionType)
    → (nat_beq (direction_type_index a) (direction_type_index b) ≡ true) ↔ (a ≡ b)
direction_type_index_iff a b = ((λ h. ground arith), (λ h. ground arith))

instance abbrev pub direction_type_eq : Eq DirectionType
direction_type_eq = record {
  beq = λ a b. nat_beq (direction_type_index a) (direction_type_index b);
  beq_iff = direction_type_index_iff;
}

pub data EmailStatus : Type 0 where
  sent delivered bounced opened clicked spam draft queued sending failed received cancelled :
      EmailStatus

abbrev pub email_status_index : EmailStatus → ℕ
email_status_index EmailStatus.sent = 0
email_status_index EmailStatus.delivered = 1
email_status_index EmailStatus.bounced = 2
email_status_index EmailStatus.opened = 3
email_status_index EmailStatus.clicked = 4
email_status_index EmailStatus.spam = 5
email_status_index EmailStatus.draft = 6
email_status_index EmailStatus.queued = 7
email_status_index EmailStatus.sending = 8
email_status_index EmailStatus.failed = 9
email_status_index EmailStatus.received = 10
email_status_index EmailStatus.cancelled = 11

pub email_status_index_iff :
    (a b : EmailStatus) → (nat_beq (email_status_index a) (email_status_index b) ≡ true) ↔ (a ≡ b)
email_status_index_iff a b = ((λ h. ground arith), (λ h. ground arith))

instance abbrev pub email_status_eq : Eq EmailStatus
email_status_eq = record {
  beq = λ a b. nat_beq (email_status_index a) (email_status_index b);
  beq_iff = email_status_index_iff;
}

pub data Folder : Type 0 where
  inbox sent drafts spam archive trash : Folder

abbrev pub folder_index : Folder → ℕ
folder_index Folder.inbox = 0
folder_index Folder.sent = 1
folder_index Folder.drafts = 2
folder_index Folder.spam = 3
folder_index Folder.archive = 4
folder_index Folder.trash = 5

pub folder_index_iff : (a b : Folder) → (nat_beq (folder_index a) (folder_index b) ≡ true) ↔ (a ≡ b)
folder_index_iff a b = ((λ h. ground arith), (λ h. ground arith))

instance abbrev pub folder_eq : Eq Folder
folder_eq = record {
  beq = λ a b. nat_beq (folder_index a) (folder_index b);
  beq_iff = folder_index_iff;
}

pub data RecipientType : Type 0 where
  to cc bcc reply_to : RecipientType

abbrev pub recipient_type_index : RecipientType → ℕ
recipient_type_index RecipientType.to = 0
recipient_type_index RecipientType.cc = 1
recipient_type_index RecipientType.bcc = 2
recipient_type_index RecipientType.reply_to = 3

pub recipient_type_index_iff :
    (a b : RecipientType)
    → (nat_beq (recipient_type_index a) (recipient_type_index b) ≡ true) ↔ (a ≡ b)
recipient_type_index_iff a b = ((λ h. ground arith), (λ h. ground arith))

instance abbrev pub recipient_type_eq : Eq RecipientType
recipient_type_eq = record {
  beq = λ a b. nat_beq (recipient_type_index a) (recipient_type_index b);
  beq_iff = recipient_type_index_iff;
}

pub data SendAttemptStatus : Type 0 where
  pending sending sent failed cancelled : SendAttemptStatus

abbrev pub send_attempt_status_index : SendAttemptStatus → ℕ
send_attempt_status_index SendAttemptStatus.pending = 0
send_attempt_status_index SendAttemptStatus.sending = 1
send_attempt_status_index SendAttemptStatus.sent = 2
send_attempt_status_index SendAttemptStatus.failed = 3
send_attempt_status_index SendAttemptStatus.cancelled = 4

pub send_attempt_status_index_iff :
    (a b : SendAttemptStatus)
    → (nat_beq (send_attempt_status_index a) (send_attempt_status_index b) ≡ true) ↔ (a ≡ b)
send_attempt_status_index_iff a b = ((λ h. ground arith), (λ h. ground arith))

instance abbrev pub send_attempt_status_eq : Eq SendAttemptStatus
send_attempt_status_eq = record {
  beq = λ a b. nat_beq (send_attempt_status_index a) (send_attempt_status_index b);
  beq_iff = send_attempt_status_index_iff;
}
