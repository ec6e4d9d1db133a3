-- ===== src/Tests.antt =====
-- The theorems of the components at concrete inputs.
mod Answering
mod Asking
mod Bytes
mod Devices
mod Encoders
mod Generating
mod Limiting
mod Listening
mod Mapping
mod Passing
mod Scopes
mod Settling
mod Text
mod Ticking
