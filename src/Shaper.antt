-- ===== src/Shaper.antt =====
-- The drawing program of Win32_Shaper: a main window with a menu, a paint box beside it, and the
-- clipboard, driven by the messages that Windows sends to the two window procedures.
mod Tests
pub mod Ids
pub mod State
pub mod Scroll
pub mod Menu
pub mod Drawing
pub mod Clipboard
pub mod Window
pub mod Canvas
pub mod Refinement
pub mod Selecting
pub mod Outcomes
pub mod Events
pub mod Marks
pub mod Runs
pub mod Painting
