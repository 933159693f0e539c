-- ===== src/Return.antt =====
-- include/libmemcached-1.0/types/return.h: `memcached_return_t`, and the tests of is.h on it.
use libmemcached.Prelude.{Bool, true, false}

-- MEMCACHED_CONNECTION_SOCKET_CREATE_FAILURE is another name of `error`.
pub data Return : Type 0 where
  success failure host_lookup_failure connection_failure connection_bind_failure : Return
  write_failure read_failure unknown_read_failure protocol_error client_error : Return
  server_error error data_exists data_does_not_exist notstored stored notfound : Return
  memory_allocation_failure partial_read some_errors no_servers end deleted value : Return
  stat item errno fail_unix_socket not_supported no_key_provided fetch_notfinished : Return
  timeout buffered bad_key_provided invalid_host_protocol server_marked_dead : Return
  unknown_stat_key e2big invalid_arguments key_too_big auth_problem auth_failure : Return
  auth_continue parse_error parse_user_error deprecated in_progress : Return
  server_temporarily_disabled server_memory_allocation_failure maximum_return : Return

-- `memcached_success`
unfoldable pub is_success : Return → Bool
is_success buffered = true
is_success deleted = true
is_success end = true
is_success item = true
is_success stat = true
is_success stored = true
is_success success = true
is_success value = true
is_success other = false

-- `memcached_failed`
unfoldable pub is_failed : Return → Bool
is_failed auth_continue = false
is_failed buffered = false
is_failed deleted = false
is_failed end = false
is_failed item = false
is_failed stat = false
is_failed stored = false
is_failed success = false
is_failed value = false
is_failed other = true

-- `memcached_fatal`
unfoldable pub is_fatal : Return → Bool
is_fatal auth_continue = false
is_fatal buffered = false
is_fatal client_error = false
is_fatal data_exists = false
is_fatal deleted = false
is_fatal e2big = false
is_fatal end = false
is_fatal item = false
is_fatal error = false
is_fatal notfound = false
is_fatal notstored = false
is_fatal some_errors = false
is_fatal server_memory_allocation_failure = false
is_fatal stat = false
is_fatal stored = false
is_fatal success = false
is_fatal value = false
is_fatal other = true
