-- ===== src/Tests.antt =====
-- The theorems at concrete inputs, by the part of the program they are about.
mod Core
mod Translation
mod Caches
mod Interrupts
mod Devices
mod Memory
mod Code
mod Cores
mod Rings
mod Switches
mod Threads
mod Requests
mod Firmware
