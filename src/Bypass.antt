-- ===== src/Bypass.antt =====
-- src/bypass.rs: bypass lists. `Pattern` has the entries and the dialects, `Parse` reads one entry,
-- `Match` meets an entry with a destination, `Rules` is the rule set and its verdict, `Gnome` the
-- sorting of GNOME's list; the rest are proofs.
pub mod Pattern
pub mod Parse
pub mod Match
pub mod Rules
pub mod Gnome
pub mod Lists
