-- ===== src/Tests.antt =====
-- Concrete objects, and the properties at them.
mod Samples
mod History
mod Intents
mod Routines
mod Leader
mod Relay
mod Unwinding
mod Obliging
mod Creation
