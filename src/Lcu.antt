-- ===== src/Lcu.antt =====
-- The prebuilt library whose headers are toolbox/src/main/cpp/lcu: its interfaces, as the wrappers
-- in toolbox/src/main/cpp use them. The code behind them is a parameter.
pub mod Handler
pub mod Ring
pub mod AutoCover
pub mod Strings
mod Tests
