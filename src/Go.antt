-- ===== src/Go.antt =====
-- What the source uses of Go itself: `float64`, dynamic values, errors and panics, texts, and the
-- maps of the analytics. Nothing here is code of the repository.
pub mod Float
pub mod Value
pub mod Outcome
pub mod Message
pub mod Ends
pub mod Keeps
pub mod Steps
pub mod Text
pub mod Json
