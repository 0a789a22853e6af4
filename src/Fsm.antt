-- ===== src/Fsm.antt =====
-- src/BaseFSM.h: what both state machines share, and what the code takes from tinyfsm and asio.
pub mod World
pub mod Library
pub mod Base
pub mod Run
pub mod Sound
