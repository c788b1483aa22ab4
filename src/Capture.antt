-- ===== src/Capture.antt =====
-- What the desktop app captures of the screen, and what it must not: the apps and sites that are left out, the
-- frame that a capture writes, and the tick that decides.
pub mod Exclusion
pub mod Website
pub mod Frame
pub mod Tick
pub mod QuickAsk
pub mod Lifecycle
pub mod Debounce
mod Examples
