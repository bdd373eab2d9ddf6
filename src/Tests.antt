-- ===== src/Tests.antt =====
-- The properties at concrete data: an office with one domain, one mailbox and one queued message.
mod Office
mod Sends
mod Mails
mod Requests
mod Payloads
mod Drafts
