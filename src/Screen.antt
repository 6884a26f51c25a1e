-- ===== src/Screen.antt =====
-- web/serialtap.js, makeScreen: the model of the terminal that the page keeps beside its record
-- of the console. Cells and Display hold the state, Motion and Csi the operations on it, Parser
-- the escape sequences, Reading what the page asks of it.
pub mod Width
pub mod Cells
pub mod Display
pub mod Motion
pub mod Fit
pub mod Csi
pub mod Parser
pub mod Reading
pub mod Bounds
pub mod Chunks
pub mod Context
pub mod Typing
pub mod Whole
