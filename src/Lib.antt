-- ===== src/Lib.antt =====
-- A verification of libmemcached, the C++ client library for memcached.
--
-- The program. A client holds a `memcached_st` with a list of servers. A key is hashed
-- (src/libhashkit), the hash is turned into the index of a server (src/libmemcached/hash.cc), and
-- the consistent distributions look it up in a continuum that src/libmemcached/hosts.cc builds from
-- the list whenever it, or the health of its servers, changes.
--
-- The modules, and the code that each is about:
-- - Prelude: shared names, lists measured by native numbers, words with their wrap-around.
-- - Hashkit: src/libhashkit. Crc32, Fnv (with one_at_a_time.cc), Murmur (with murmur3.cc), Hsieh,
--   Jenkins and Md5 hold the algorithms; Digest has libhashkit_digest and has.cc, Function
--   hashkit_st with function.cc and hashkit.cc. A key is a list of bytes below 256, with the
--   address that jenkins.cc tests and the memory behind it that it reads; `char` is signed. Words
--   are natural numbers taken modulo 2 ^ 32 or 2 ^ 64 at each operation. The build options of
--   has.cc are a record.
-- - Return: memcached_return_t.
-- - Distribution: hosts.cc, hash.cc, virtual_bucket.cc. State has the fields of memcached_st that
--   they read; HostKey the keys that are hashed into points; Sort the comparison functions and
--   qsort; Continuum update_continuum and run_distribution; Dispatch the way from a key to an index;
--   Servers the functions that add servers (with instance.cc); Buckets the tables of virtual buckets.
--   Ring is the abstract view: the points in no order, and the successor of a hash among them. The
--   other children relate the code to it, and are about servers that join or leave.
-- - Pool: src/libmemcachedutil/pool.cc. A stretch under the mutex is one function; Pool/System makes
--   the threads' interleavings a step relation. The settings of a client are a type of their own,
--   with memcached_behavior_set and memcached_clone as parameters on it.
-- - StringBuffer: src/libmemcached/string.cc. The buffer is its array of bytes, with `end` an offset
--   and `realloc` a test on the size that is asked for.
-- - Key: src/libmemcached/key.cc and namespace.cc. A key is the list of its characters, and the error
--   that is recorded a field.
-- - Behavior: src/libmemcached/behavior.cc. The settings are the flags, the numbers as 32 bits, and
--   the routing and hashing parts above, which the setters of the distribution and hash call. Kept
--   is what run_distribution leaves alone, whatever it returns.
-- - Io: src/libmemcached/io.cc, with instance.hpp. Io has the connection, Read the functions that read,
--   Write those that write, with memcached_vdo of do.cc: send has answers of its own, and there are no
--   response callbacks; a write that comes to a purge has no result in the model.
--   The socket is the list of the answers that recv is going to give, with the answer of poll behind
--   those that block; a call for which the list is too short has not come back. Stream relates the
--   reads to the bytes that the socket delivers.
-- - Connect: the retry state of a server in connect.cc, with server.hpp. The results of the attempt
--   itself and of the rebuilding of the continuum are arguments, and so is the clock.
-- - Protocol: src/libmemcached/response.cc and the files that write requests. Numbers is what they use
--   of snprintf and strtoul, Words the words of the text protocol, Value the line in front of a value
--   and the value, Response the switch over the other lines. AES decryption is a parameter; the
--   texts of error messages are left out. Header, Command and Status are binary.h and byteorder.cc, Binary
--   the responses of the binary protocol, Storage the requests of storage.cc in both protocols.
-- - Server: src/libmemcachedprotocol. Ascii is ascii_handler.c, the commands that store. Tokens and
--   Commands are lemmas; Call holds the callbacks of callback.h that Ascii and Binary make. RoundTrip
--   puts the client's Storage in front of it.
--   Server/Binary is binary_handler.c, the packets that store, by interface version 1: the functions of
--   the server, the sending of a response and the function for unknown packets are arguments. Requests
--   is what the client's packets ask for, Fields how they are taken apart, Pipeline packets in a row.
--
-- A store into an array is a new list, and out of bounds it changes nothing. The binary search runs on
-- fuel, one more than the number of points, which is enough since each round shortens the range. The
-- decimal printer of the continuum has ten digits of fuel, enough for 32 bits, that of the protocol 20,
-- enough for 64. The loop of the pool's fetch runs twice at most. A read of `n` bytes runs on one unit
-- of fuel more than `n`, since each round brings a byte at least; so do a write, the reading of a line and
-- the skipping of a body. The packets of a buffer are no more than its bytes. The tokens of a
-- command are limited by the vector of ten that holds them.
--
-- Assertions. assert_msg ends the program in a build without NDEBUG and is nothing with it. The
-- definitions are the code with NDEBUG; the one assertion that a user can make fail, in front of the
-- qsort of the continuum, is is_valid_size, and what is said of a rebuild is said of at most a hundred
-- servers, for which it holds. number_of_hosts and the sizes of the continuum are uint32_t and wrap
-- around. A list of servers stands for a client if its length is below 2 ^ 32.
--
-- What is taken from outside: the clock, whether realloc succeeds, random(), and the floating point
-- share of a weighted server are arguments. qsort is insertion sort: points that compare equal are
-- equal, so the result does not depend on the algorithm.
--
-- Not modelled: sockets but for what they answer, UDP, SASL, the configuration grammar (bison and flex), the
-- AES cipher, memory allocation but for its failure, and the programs around the library.
pub mod Prelude
pub mod Hashkit
pub mod Return
pub mod Connect
pub mod Distribution
pub mod Pool
pub mod Protocol
pub mod Server
pub mod StringBuffer
pub mod Io
pub mod Key
pub mod Behavior
