-- ===== src/Errors.antt =====
-- Errors (include/server/errors, source/server/errors): exceptions and their text, the texts of
-- system errors, and the handler of fatal signals.
pub mod Exceptions
pub mod Frozen
pub mod Signals
pub mod Setup
