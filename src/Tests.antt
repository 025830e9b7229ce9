-- ===== src/Tests.antt =====
-- Runs of the model at small inputs, and instances of the theorems there.
mod Sample
mod Dispatching
mod Registering
mod Transporting
mod Encoding
mod Working
mod Telling
mod Tasking
mod Delaying
mod Configuring
mod Building
