-- ===== src/Dns.antt =====
-- src/core/DNSParser.cpp: Name reads names with compression pointers, Records the data of a
-- resource record, Message the whole response, Reverse the names of reverse lookups.
pub mod Name
pub mod Records
pub mod Message
pub mod Reverse
