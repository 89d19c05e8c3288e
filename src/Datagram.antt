-- ===== src/Datagram.antt =====
-- The datagram sockets of tlpi/c57/unix_domain_datagram_sock.c and of tlpi/c57/57.4.c, between
-- processes that take turns.
mod Calls
mod Pair
mod Queue
mod Steps
mod Turns
mod Progress
mod Schedules
mod Named
mod Stages
mod Course
mod Tests
mod NamedTests
