-- ===== src/Tests.antt =====
-- Runs on concrete inputs, by component.
mod Streams
mod Buffers
mod Values
mod Messages
mod Posts
mod Text
mod Tables
mod Caches
mod Events
mod Fibers
mod Sessions
