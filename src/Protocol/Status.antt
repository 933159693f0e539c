-- ===== src/Protocol/Status.antt =====
-- include/libmemcachedprotocol-0.0/binary.h: `protocol_binary_response_status`, the values that the
-- client tells apart and those that the server library needs.
use libmemcached.Prelude.{ℕ}

abbrev pub succeeded : ℕ
succeeded = 0x00

abbrev pub key_enoent : ℕ
key_enoent = 0x01

abbrev pub key_eexists : ℕ
key_eexists = 0x02

abbrev pub e2big : ℕ
e2big = 0x03

abbrev pub not_stored : ℕ
not_stored = 0x05

abbrev pub auth_error : ℕ
auth_error = 0x20

abbrev pub auth_continue : ℕ
auth_continue = 0x21

abbrev pub enomem : ℕ
enomem = 0x82

abbrev pub unknown_command : ℕ
unknown_command = 0x81

abbrev pub not_supported : ℕ
not_supported = 0x83

abbrev pub einternal : ℕ
einternal = 0x84
