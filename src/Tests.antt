-- ===== src/Tests.antt =====
-- Runs of the code on small inputs, and each theorem with hypotheses at such an input.
mod Samples
mod Validating
mod Allocating
mod Coding
mod Kernel
mod Calling
mod Copying
mod Looping
mod Agreeing
mod Routing
mod Watching
