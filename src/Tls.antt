-- ===== src/Tls.antt =====
-- src/server/tls.rs: loading the certificate and the key, and the listener that accepts TLS
-- connections. rustls, its PEM reader, SHA-256 and the file system are parameters.
pub mod Laws
use rshs.Common.{
  Bool, Bytes, List, Option, [], codes, false, if◌then◌else◌, is_empty, ltb, none, not, some, true,
  ℕ, ◌%◌, ◌++◌, ◌+◌, ◌/◌, ◌∷◌,
}

-- `io::ErrorKind` as far as the program makes or passes it on
pub data ErrorKind : Type 0 where
  file_not_found permission_denied other_error : ErrorKind
  invalid_data invalid_input : ErrorKind

-- `io::Result`
pub data Loaded (A : Type 0) : Type 0 where
  loaded : A → Loaded A
  failed : ErrorKind → Loaded A

infixl 5 ◌>>=◌ ◌>>◌
abbrev pub ◌>>=◌ : {A B : Type 0} → Loaded A → (A → Loaded B) → Loaded B
loaded a >>= f = f a
failed e >>= f = failed e

abbrev pub ◌>>◌ : {B : Type 0} → Loaded (Unit {0}) → Loaded B → Loaded B
m >> k = m >>= λ _. k

abbrev pub require : Bool → ErrorKind → Loaded (Unit {0})
require true e = loaded tt
require false e = failed e

pub record TlsConfig : Type 0 where
  pub cert_path : Bytes
  pub key_path : Bytes

-- `PrivateKeyDer`, which may get more formats
pub data PrivateKeyDer : Type 0 where
  pkcs8 sec1 pkcs1 : Bytes → PrivateKeyDer
  unknown_format : PrivateKeyDer

-- what `rustls_pemfile::private_key` finds
pub data KeyRead : Type 0 where
  key_found : PrivateKeyDer → KeyRead
  no_key malformed_key : KeyRead

-- The calls of the crates: a file's content, the certificates in it (`none` for one that is
-- malformed), its private key, whether rustls takes both, and SHA-256.
pub record TlsCrates : Type 0 where
  pub read_file : Bytes → Loaded Bytes
  pub pem_certs : Bytes → List (Option Bytes)
  pub pem_key : Bytes → KeyRead
  pub accepts_cert : List Bytes → PrivateKeyDer → Bool
  pub sha256 : Bytes → Bytes

-- The `rustls::ServerConfig` that the program builds.
pub record RustlsConfig : Type 0 where
  pub certs : List Bytes
  pub key : PrivateKeyDer
  pub alpn_protocols : List Bytes

abbrev pub alpn : List Bytes
alpn = codes "h2" ∷ codes "http/1.1" ∷ []

-- `{b:02X}`
upper_digit : ℕ → ℕ
upper_digit n = if ltb n 10 then 48 + n else 55 + n

hex_byte : ℕ → Bytes
unfolding upper_digit
hex_byte b = upper_digit (b / 16) ∷ upper_digit (b % 16) ∷ []

unfoldable pub hex_pairs : Bytes → Bytes
unfolding hex_byte
hex_pairs [] = []
hex_pairs (b ∷ []) = hex_byte b
hex_pairs (b ∷ c ∷ bs) = hex_byte b ++ b':' ∷ hex_pairs (c ∷ bs)

-- the fingerprint that is logged for a certificate
unfoldable pub fingerprint : TlsCrates → Bytes → Bytes
unfolding hex_pairs
fingerprint crates cert = hex_pairs (crates.sha256 cert)

-- the loop over the certificates, which ends at the first that is malformed
unfoldable pub collect_certs : List (Option Bytes) → Loaded (List Bytes)
collect_certs [] = loaded []
collect_certs (none ∷ items) = failed invalid_data
collect_certs (some cert ∷ items) = do certs ← collect_certs items; loaded (cert ∷ certs)

abbrev pub found_key : KeyRead → Loaded PrivateKeyDer
found_key (key_found k) = loaded k
found_key no_key = failed invalid_data
found_key malformed_key = failed invalid_data

abbrev pub is_supported : PrivateKeyDer → Bool
is_supported unknown_format = false
is_supported _ = true

-- `TlsConfig::load`
unfoldable pub load : TlsCrates → TlsConfig → Loaded RustlsConfig
unfolding collect_certs
load crates tls = do
  cert_text ← crates.read_file tls.cert_path
  certs ← collect_certs (crates.pem_certs cert_text)
  require (not (is_empty certs)) invalid_data
  key_text ← crates.read_file tls.key_path
  key ← found_key (crates.pem_key key_text)
  require (is_supported key) invalid_data
  require (crates.accepts_cert certs key) invalid_data
  loaded (record { certs = certs; key = key; alpn_protocols = alpn })

-- What comes in on the TCP listener: an error, or a stream with its address and whether its
-- handshake succeeds.
pub data Arrival (Stream Addr : Type 0) : Type 0 where
  tcp_failed : Arrival Stream Addr
  tcp_stream : Stream → Addr → Bool → Arrival Stream Addr

-- What `accept` returns: the connection, what is still to come, and the seconds that it slept.
pub record Accepted (Stream Addr : Type 0) : Type 0 where
  pub stream : Stream
  pub addr : Addr
  pub rest : List (Arrival Stream Addr)
  pub slept : ℕ

module _ {Stream Addr : Type 0} where
  -- The loop of `accept`; `none` while nothing more comes in.
  unfoldable pub accept_from : ℕ → List (Arrival Stream Addr) → Option (Accepted Stream Addr)
  accept_from slept [] = none
  accept_from slept (tcp_failed ∷ arrivals) = accept_from (slept + 1) arrivals
  accept_from slept (tcp_stream stream addr shaken ∷ arrivals) =
      let again = accept_from slept arrivals in
      if shaken
      then some (record { stream = stream; addr = addr; rest = arrivals; slept = slept })
      else again

  unfoldable pub accept : List (Arrival Stream Addr) → Option (Accepted Stream Addr)
  unfolding accept_from
  accept arrivals = accept_from 0 arrivals
