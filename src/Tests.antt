-- ===== src/Tests.antt =====
-- The theorems at concrete inputs, and runs of the models of src/.
mod Machines
mod Activities
mod Line
mod Threads
mod Opening
mod Processes
mod Logger
mod Series
mod Pings
mod Control
