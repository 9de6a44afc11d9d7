-- ===== src/Tests.antt =====
-- Runs of the modelled code on concrete inputs, and the theorems at inputs that meet their
-- hypotheses.
mod States
mod Memory
mod Processes
mod Services
mod Segments
mod Attachments
mod Storage
mod Files
mod Calls
