-- ===== src/Lib.antt =====
-- A model of the DHCPv4 server below server/src and theorems about it.
--
-- The server keeps pools of addresses (an allocator), answers DHCP messages from a socket, stores
-- the messages of each transaction in a cache, records leases in one JSON file per pool, and lets a
-- timer return expired leases and unaccepted offers to the pools. Access control lists decide which
-- clients it serves.
--
-- Which module models which part, with the names of the source kept:
--   Pool             server/src/address_pool.c, address_pool.h: a pool as a record with its bitmap
--   Allocator        server/src/allocator.c, allocator.h: the pools and the global options
--   Options          server/src/dhcp_options.c, dhcp_options.h: options, their types and lists
--   Codec            server/src/dhcp_options.c: the bytes of options, parsed and written
--   RequiredOptions  server/src/dhcp_options.c: the options of an answer
--   Packet           server/src/dhcp_packet.c, dhcp_packet.h: messages and raw packets
--   Timer            server/src/timer.c, timer.h
--   Llist            server/src/utils/llist.c, llist.h
--   Transaction      server/src/transaction.c, transaction.h
--   TransCache       server/src/transaction_cache.c, transaction_cache.h
--   Xtoy             server/src/utils/xtoy.c: addresses as text, and the functions of
--                    server/src/address_pool.c and allocator.c that take such texts
--   Acl              server/src/security/acl.c, dynamic_acl.c, and the hardware addresses of
--                    server/src/utils/xtoy.c
--   Lease            server/src/lease.c, lease.h
--   Server           server/src/dhcp_server.c (timers and lease expiry), the callback of
--                    server/src/transaction.c, server/src/messages/dhcprelease.c and dhcpdecline.c
--   Answer           server/src/messages/dhcpoffer.c, dhcpack.c, dhcpnak.c, dhcpinform.c: what is
--                    built, sent and stored
--   Discover         server/src/messages/dhcpdiscover.c
--   Request          server/src/messages/dhcprequest.c, dhcprequest.h
--   Serve            server/src/dhcp_server.c: the loop of the server and the checks before a
--                    message reaches its handler
--   Config           server/src/config.c, config.h: the settings, the JSON file (Config/Options,
--                    Config/Pools), and the arguments of the program (Config/Arguments,
--                    Config/Flags)
--   Start            server/src/init.c and server/src/main.c up to the loop
-- Prelude holds what they share. Examples has concrete states, and the theorems applied to them.
--
-- How the code is read. A C structure is a record, and a function that writes through a pointer
-- returns the new record beside its result; a pointer into an array or a list is an index or the
-- key that found it. uint32_t and uint8_t are natural numbers with the wrap-around written out.
-- The host stores the low byte of a number first. Memory is always granted, arguments that the
-- callers never pass as null are not null, and logging is left out. The macros if_null, if_failed
-- and their like belong to the cclog library: they are read as a jump to their label on a null
-- pointer, or on a return code other than 0. Strings and bytes are as long as the code relies on.
--
-- Loops. A loop over a list or over a counted range is structural recursion. The search for a free
-- address has fuel for every address of the pool and one round to leave the loop. The parser of
-- options has fuel for 158 rounds: every round but one at a PAD byte moves on by two bytes of 312.
--
-- What is outside. The time, the packets that recv gives, whether sendto succeeds, and what the
-- memory of a freed option list reads as are parameters: of a round of the loop, they are its event.
-- The packet that is handed to sendto is an output of the handler, with the address it goes to.
--
-- What the start meets is a parameter too: the items that cJSON finds in the configuration file, the
-- arguments that getopt_long finds, the interfaces that getifaddrs lists, the value of a NaN as an
-- unsigned integer, and the bytes behind a local variable.
--
-- Not modelled: the control socket and its commands, the packet database, the scan of DHCP snooping,
-- the shutdown, reading and writing of files, and the graphical interface. A lease file is the array
-- that cJSON reads from it, each lease as json_to_lease gives it: that conversion and lease_to_cjson
-- are left out. That a received message shares its option list with its copy in the
-- cache shows only in the parameter for freed lists; the release of memory is left out otherwise.
pub mod Prelude
pub mod Options
pub mod Pool
pub mod Allocator
pub mod Codec
pub mod Timer
pub mod Packet
pub mod Llist
pub mod Transaction
pub mod TransCache
pub mod RequiredOptions
pub mod Acl
pub mod Lease
pub mod Server
pub mod Examples
pub mod Answer
pub mod Discover
pub mod Request
pub mod Serve
pub mod Config
pub mod Start
pub mod Xtoy
