-- ===== src/Examples.antt =====
-- Tests of the definitions, and each theorem at work on concrete values.
mod Values
mod Alerts
mod Runs
mod Warnings
mod Settings
mod Services
mod Checks
mod Database
mod Commands
mod Mails
