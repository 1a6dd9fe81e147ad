-- ===== src/Tests.antt =====
-- Runs of the model at concrete inputs.
mod Data
mod Bypass
mod Config
mod Pac
mod Resolve
mod Readers
mod Texts
mod Watch
mod Dict
mod Gnome
mod Kde
mod Linux
mod Slots
mod Hostfn
mod Calendar
mod Android
mod Registry
mod Selected
