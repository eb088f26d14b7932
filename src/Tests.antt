-- ===== src/Tests.antt =====
-- The theorems at concrete inputs.
mod Fixtures
mod StateTests
mod BusTests
mod ActionTests
mod ApiTests
mod SourceTests
mod ControllerTests
mod SourceControllerTests
mod SystemTests
mod ReachedTests
mod ConsumerTests
mod MainTests
mod DebugTests
mod MemoryFixtures
mod MemoryValues
mod MemoryTests
mod ThrottleTests
mod ActingTests
