-- ===== src/Examples.antt =====
-- Runs of the model on concrete inputs, in the environment of Examples/Server.antt.
mod Server
mod Reads
mod Trees
mod Caches
mod Handlers
mod Https
mod Running
mod Loading
mod Visible
mod Mounted
