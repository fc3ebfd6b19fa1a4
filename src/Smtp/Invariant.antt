-- ===== src/Smtp/Invariant.antt =====
-- What holds of every session of usr.sbin/smtpd/smtp_session.c between two events.
pub mod Defs
pub mod Transaction
pub mod Auth
pub mod Commands
pub mod Lines
pub mod Names
pub mod Answers
pub mod Messages
pub mod Filters
pub mod Input
pub mod Datain
pub mod Events
pub mod Reachable
pub mod Late
mod Tests
