-- ===== src/Enums.antt =====
-- utils/enums.py: the choices as data types, and the texts that stand for them in payloads.
mod Providers
mod Mail
mod Access
pub use Providers.*
pub use Mail.*
pub use Access.*
use hedwig.Prelude.{◌≡◌, refl, String, Option, none, some, Eq, string_eq, ◌==◌, if◌then◌else◌}

-- `Folder.X.value`
unfoldable pub folder_value : Folder → String
folder_value Folder.inbox = "inbox"
folder_value Folder.sent = "sent"
folder_value Folder.drafts = "drafts"
folder_value Folder.spam = "spam"
folder_value Folder.archive = "archive"
folder_value Folder.trash = "trash"

-- The choice that a text stands for: `text in Folder.values`.
unfoldable pub folder_of : String → Option Folder
folder_of s =
    if s == "inbox"
    then some Folder.inbox
    else if s == "sent"
    then some Folder.sent
    else if s == "drafts"
    then some Folder.drafts
    else if s == "spam"
    then some Folder.spam
    else if s == "archive"
    then some Folder.archive
    else if s == "trash"
    then some Folder.trash
    else none

pub folder_of-folder_value : (c : Folder) → folder_of (folder_value c) ≡ some c
unfolding folder_of folder_value
folder_of-folder_value Folder.inbox = refl
folder_of-folder_value Folder.sent = refl
folder_of-folder_value Folder.drafts = refl
folder_of-folder_value Folder.spam = refl
folder_of-folder_value Folder.archive = refl
folder_of-folder_value Folder.trash = refl

-- `EventType.X.value`
unfoldable pub event_type_value : EventType → String
event_type_value EventType.queued = "queued"
event_type_value EventType.sent = "sent"
event_type_value EventType.delivered = "delivered"
event_type_value EventType.opened = "opened"
event_type_value EventType.clicked = "clicked"
event_type_value EventType.bounced = "bounced"
event_type_value EventType.complained = "complained"
event_type_value EventType.unsubscribed = "unsubscribed"
event_type_value EventType.failed = "failed"

-- The choice that a text stands for: `text in EventType.values`.
unfoldable pub event_type_of : String → Option EventType
event_type_of s =
    if s == "queued"
    then some EventType.queued
    else if s == "sent"
    then some EventType.sent
    else if s == "delivered"
    then some EventType.delivered
    else if s == "opened"
    then some EventType.opened
    else if s == "clicked"
    then some EventType.clicked
    else if s == "bounced"
    then some EventType.bounced
    else if s == "complained"
    then some EventType.complained
    else if s == "unsubscribed"
    then some EventType.unsubscribed
    else if s == "failed"
    then some EventType.failed
    else none

pub event_type_of-event_type_value : (c : EventType) → event_type_of (event_type_value c) ≡ some c
unfolding event_type_of event_type_value
event_type_of-event_type_value EventType.queued = refl
event_type_of-event_type_value EventType.sent = refl
event_type_of-event_type_value EventType.delivered = refl
event_type_of-event_type_value EventType.opened = refl
event_type_of-event_type_value EventType.clicked = refl
event_type_of-event_type_value EventType.bounced = refl
event_type_of-event_type_value EventType.complained = refl
event_type_of-event_type_value EventType.unsubscribed = refl
event_type_of-event_type_value EventType.failed = refl
