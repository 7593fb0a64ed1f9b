-- ===== src/Connection/Tls.antt =====
-- How src/TLS.cpp reads the answers of the TLS library, and `Connection::P::interpretTLSCode`, which
-- makes of them the codes of include/mumble/Types.hpp.
use libmumble.Prelude.{ℕ, Bool, true, false, not, ltb, ◌==◌, if◌then◌else◌, [], take}
use libmumble.Tcp.Fields.{Bytes}

-- `mumble::Code`, whose `Open` is here `cannot_open`.
pub data Code : Type 0 where
  ssl refuse reach listen cannot_open unsupport invalid init timeout memory failure unknown : Code
  success cancel retry busy disconnect : Code

-- `SocketTLS::Code`.
pub data TlsCode : Type 0 where
  tls_memory tls_failure tls_unknown tls_success tls_retry : TlsCode
  tls_shutdown wait_in wait_out : TlsCode

-- What `SSL_get_error` gives. `syscall` is the case of `SSL_ERROR_SYSCALL`, with whether the queue of
-- errors is empty and the error of the system is one to retry on.
pub data SslError : Type 0 where
  no_error zero_return want_read want_write ssl_error other : SslError
  syscall : Bool → SslError

-- `SocketTLS::interpretLibCode`.
unfoldable pub interpret_lib_code : SslError → Bool → Bool → TlsCode
interpret_lib_code no_error true remaining = if remaining then tls_retry else tls_success
interpret_lib_code no_error false remaining = tls_shutdown
interpret_lib_code zero_return processed remaining = tls_shutdown
interpret_lib_code want_read processed remaining = wait_in
interpret_lib_code want_write processed remaining = wait_out
interpret_lib_code (syscall true) processed remaining = tls_retry
interpret_lib_code (syscall false) true remaining = tls_failure
interpret_lib_code (syscall false) false remaining = tls_shutdown
interpret_lib_code ssl_error processed remaining = tls_failure
interpret_lib_code other processed remaining = tls_unknown

-- `SocketTLS::m_closed` after `interpretLibCode`.
unfoldable pub closed_by : SslError → Bool → Bool
closed_by (syscall false) closed = true
closed_by e closed = closed

-- What `SSL_read_ex` and `SSL_write_ex` move of the bytes that are ready: those that the buffer has
-- room for where they succeed, else none.
unfoldable pub moved_bytes : SslError → Bytes → ℕ → Bytes
moved_bytes no_error ready size = take size ready
moved_bytes e ready size = []

-- `SocketTLS::read` and `write`: the library moves so many bytes of a buffer of `size`, and the code
-- tells whether any are left.
unfoldable pub transfer : SslError → ℕ → ℕ → TlsCode
unfolding interpret_lib_code
transfer e moved size = interpret_lib_code e (not (moved == 0)) (ltb moved size)

-- `Connection::P::interpretTLSCode`.
unfoldable pub interpret_tls_code : TlsCode → Code
interpret_tls_code tls_memory = memory
interpret_tls_code tls_failure = failure
interpret_tls_code tls_unknown = unknown
interpret_tls_code tls_success = success
interpret_tls_code tls_retry = retry
interpret_tls_code tls_shutdown = disconnect
interpret_tls_code wait_in = busy
interpret_tls_code wait_out = busy
