-- ===== src/Tests.antt =====
-- Runs of the models on concrete inputs, and each theorem at such an input.
mod Buffers
mod Chunks
mod Headers
mod Amf0
mod Sources
mod Contexts
mod HandShakes
mod Sending
mod Connections
mod Publishers
mod Loops
