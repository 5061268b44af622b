-- ===== src/Tests.antt =====
-- Runs of the model on concrete inputs, by component.
mod Acb
mod Hca
mod Client
mod Process
mod Unpack
mod Wire
mod Usm
mod Fetch
mod Frame
