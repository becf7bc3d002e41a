-- ===== src/Flex.antt =====
-- src/flex.c.
pub mod Connection
pub mod Buffer
pub mod Responses
pub mod Fields
pub mod Handlers
pub mod Commands
pub mod Run
pub mod Waiting
pub mod Answers
pub mod Protocol
pub mod Quiet
pub mod Ensures
pub mod Nesting
pub mod Partial
pub mod Lines
pub mod Cache
pub mod Create
pub mod Connect
pub mod Bounds
pub mod Safety
