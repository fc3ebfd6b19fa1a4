-- ===== src/Smtp.antt =====
-- The SMTP server of usr.sbin/smtpd: sessions with clients, smtp_session.c, and what they read by.
pub mod Text
pub mod Address
pub mod Parser
pub mod Header
pub mod Types
pub mod Content
pub mod Session
pub mod Check
pub mod Options
pub mod Transaction
pub mod Auth
pub mod Proceed
pub mod Command
pub mod Imsg
pub mod Io
pub mod Steps
pub mod Lines
pub mod Invariant
mod Tests
