-- ===== src/Tcp/Externals.antt =====
-- What src/Pack.cpp uses of other code in its messages: the address type comes from another library
-- and the certificate rests on OpenSSL. Both are parameters, with the conversions that are called.
use libmumble.Tcp.Fields.{Bytes}

-- An IP address with its sixteen bytes and the constructor from a string, and a certificate with its
-- DER form and the constructor from bytes. Nothing is assumed of them.
pub record Externals : Type 1 where
  pub Ip : Type 0
  pub no_ip : Ip
  pub v6 : Ip → Bytes
  pub of_string : Bytes → Ip
  pub Cert : Type 0
  pub der : Cert → Bytes
  pub of_der : Bytes → Cert
