-- ===== src/Drivers.antt =====
-- The drivers of src/drivers: the screen, the keyboard, the clock and the console.
pub mod Font
pub mod Graphics
pub mod Keyboard
pub mod Console
pub mod Clock
pub mod Tests
