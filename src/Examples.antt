-- ===== src/Examples.antt =====
-- Tests of the definitions, and the theorems at concrete inputs.
mod Uploading
mod Clients
mod Pages
mod Servers
mod Browsing
mod Calls
mod Dialogs
