-- ===== src/Examples.antt =====
-- Runs of the code on concrete inputs, and the theorems applied to them.
mod Queues
mod Waiting
mod Letters
mod Retries
mod Deliveries
mod Requests
mod Records
mod Processes
mod Shutdowns
mod Ranks
mod Services
mod Texts
mod Slices
mod Loops
mod Threads
mod Systems
mod Quarters
