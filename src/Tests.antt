-- ===== src/Tests.antt =====
-- Runs of the model on concrete inputs, and each result applied at one.
mod QueueTests
mod HttpTests
mod FilesTests
mod ServerTests
mod StreamTests
mod ClientTests
mod ListingTests
mod AcceptTests
mod LogTests
mod MainTests
