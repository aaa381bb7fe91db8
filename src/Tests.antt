-- ===== src/Tests.antt =====
-- Concrete runs of the models.
mod Rules
mod Histories
mod Graphs
mod Linked
mod Causes
mod Sequences
mod Links
mod Instances
mod Threads
mod Components
mod Contained
mod Queues
