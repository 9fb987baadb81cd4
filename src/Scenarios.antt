-- ===== src/Scenarios.antt =====
-- Runs of the models at concrete inputs.
mod Engine
mod Client
mod Uploads
mod Editing
mod Lists
mod Clips
mod Directories
mod Sessions
mod Drops
mod Buttons
mod Delivery
