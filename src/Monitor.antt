-- ===== src/Monitor.antt =====
-- monitor/generate.py: the run-time monitor. The script writes a Verilog module; here it is what
-- that module does at each clock edge.
pub mod Base
pub mod Channel
pub mod Agreement
pub mod Rob
pub mod Order
pub mod Deliver
pub mod Keep
pub mod Complete
pub mod Progress
pub mod Reordered
pub mod Pc
pub mod Predict
pub mod Chain
pub mod Carry
pub mod Regs
pub mod Consistent
pub mod Rewrite
pub mod Conditional
pub mod Replaced
pub mod Rewritten
pub mod Options
pub mod Top
pub mod Quiet
mod Tests
