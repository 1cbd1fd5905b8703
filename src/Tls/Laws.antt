-- ===== src/Tls/Laws.antt =====
-- When the TLS configuration of src/server/tls.rs loads, and what its listener returns.
use rshs.Common.{
  All, Bool, Bytes, List, Option, [], ap, arith, bytes_key, codes, false, inl, inr, is_empty, map,
  none, not, refl, some, suc, true, ℕ, ◌++◌, ◌+◌, ◌↔◌, ◌∙◌, ◌∷◌, ◌≡◌, ◌⊎◌,
}
use rshs.FilePath.{path_key}
use rshs.Map.{nat_key}
use rshs.Tls.{
  Arrival, ErrorKind, KeyRead, Loaded, PrivateKeyDer, RustlsConfig, TlsConfig, TlsCrates, accept,
  accept_from, alpn, collect_certs, failed, found_key, invalid_data, is_supported, key_found, load,
  loaded, malformed_key, no_key, require, tcp_failed, tcp_stream, ◌>>=◌, ◌>>◌,
}
use rshs.Webdav.Transfer.{made}

-- The files that a configuration comes from.
pub record LoadsFrom (crates : TlsCrates) (tls : TlsConfig) (c : RustlsConfig) : Type 0 where
  pub cert_text : Bytes
  pub key_text : Bytes
  pub cert_read : crates.read_file tls.cert_path ≡ loaded cert_text
  pub key_read : crates.read_file tls.key_path ≡ loaded key_text
  pub all_parsed : crates.pem_certs cert_text ≡ map some c.certs
  pub some_cert : is_empty c.certs ≡ false
  pub key_there : crates.pem_key key_text ≡ key_found c.key
  pub supported : is_supported c.key ≡ true
  pub accepted : crates.accepts_cert c.certs c.key ≡ true
  pub offers : c.alpn_protocols ≡ codes "h2" ∷ codes "http/1.1" ∷ []

Loaded-cases :
    {A : Type 0} (m : Loaded A) → ((a : A) × (m ≡ loaded a)) ⊎ ((e : ErrorKind) × (m ≡ failed e))
Loaded-cases (loaded a) = inl (a, refl)
Loaded-cases (failed e) = inr (e, refl)

-- inversion of a successful step
bind-loaded :
    {A B : Type 0} (m : Loaded A) (f : A → Loaded B) (b : B)
    → (m >>= f) ≡ loaded b
    → (a : A) × (m ≡ loaded a) × (f a ≡ loaded b)
bind-loaded (loaded a) f b h = (a, refl, h)
bind-loaded (failed e) f b h = cc

require-loaded :
    {B : Type 0} (test : Bool) (e : ErrorKind) (m : Loaded B) (b : B)
    → (require test e >> m) ≡ loaded b
    → (test ≡ true) × (m ≡ loaded b)
require-loaded true e m b h = (refl, h)
require-loaded false e m b h = cc

collect_certs-loaded :
    (items : List (Option Bytes)) (certs : List Bytes)
    → collect_certs items ≡ loaded certs
    → items ≡ map some certs
unfolding collect_certs
collect_certs-loaded [] certs h = let e : [] ≡ certs = cc in rw (← e) refl
collect_certs-loaded (none ∷ items) certs h = cc
collect_certs-loaded (some cert ∷ items) certs h =
    let (rest, found, made) = bind-loaded (collect_certs items) (λ r. loaded (cert ∷ r)) certs h in
    let e : cert ∷ rest ≡ certs = cc in
    rw (← e) (ap (λ l. some cert ∷ l) (collect_certs-loaded items rest found))

collect_certs-map : (certs : List Bytes) → collect_certs (map some certs) ≡ loaded certs
unfolding collect_certs
collect_certs-map [] = refl
collect_certs-map (cert ∷ certs) = ap (λ m. m >>= λ r. loaded (cert ∷ r)) (collect_certs-map certs)

found_key-loaded :
    (k : KeyRead) (key : PrivateKeyDer) → found_key k ≡ loaded key → k ≡ key_found key
found_key-loaded (key_found k) key h = cc
found_key-loaded no_key key h = cc
found_key-loaded malformed_key key h = cc

module _ (crates : TlsCrates) (tls : TlsConfig) (c : RustlsConfig) where
  load_sound : load crates tls ≡ loaded c → LoadsFrom crates tls c
  unfolding load
  load_sound h =
      let (cert_text, cert_read, h1) = bind-loaded (crates.read_file tls.cert_path) _ c h in
      let (certs, read_certs, h2) =
        bind-loaded (collect_certs (crates.pem_certs cert_text)) _ c h1 in
      let (some_cert, h3) = require-loaded (not (is_empty certs)) invalid_data _ c h2 in
      let (key_text, key_read, h4) = bind-loaded (crates.read_file tls.key_path) _ c h3 in
      let (key, found, h5) = bind-loaded (found_key (crates.pem_key key_text)) _ c h4 in
      let (supported, h6) = require-loaded (is_supported key) invalid_data _ c h5 in
      let (accepted, h7) = require-loaded (crates.accepts_cert certs key) invalid_data _ c h6 in
      let made : record { certs = certs; key = key; alpn_protocols = alpn } ≡ c = cc in
      rw (← made) (record {
        cert_text = cert_text;
        key_text = key_text;
        cert_read = cert_read;
        key_read = key_read;
        all_parsed = collect_certs-loaded (crates.pem_certs cert_text) certs read_certs;
        some_cert = ground arith;
        key_there = found_key-loaded (crates.pem_key key_text) key found;
        supported = supported;
        accepted = accepted;
        offers = refl;
      })

  load_complete : LoadsFrom crates tls c → load crates tls ≡ loaded c
  unfolding load
  load_complete f =
      let read_certs : collect_certs (crates.pem_certs f.cert_text) ≡ loaded c.certs =
        ap collect_certs f.all_parsed ∙ collect_certs-map c.certs in
      rw f.cert_read (
        rw read_certs (
          rw f.some_cert (
            rw f.key_read
              (rw f.key_there (rw f.supported (rw f.accepted (rw (← f.offers) refl)))))))

  -- Loading succeeds with a configuration exactly when both files can be read, every certificate of
  -- the first parses and there is one, the second has a private key in a supported format, and
  -- rustls takes both; the configuration has these certificates in their order and this key, and
  -- offers h2 before http/1.1.
  pub load_iff : (load crates tls ≡ loaded c) ↔ LoadsFrom crates tls c
  load_iff = (load_sound, load_complete)

module _ {Stream Addr : Type 0} where
  -- An arrival that brings no connection.
  abbrev pub Fails : Arrival Stream Addr → Type 0
  Fails tcp_failed = Unit
  Fails (tcp_stream stream addr shaken) = shaken ≡ false

  abbrev pub tcp_failures : List (Arrival Stream Addr) → ℕ
  tcp_failures [] = 0
  tcp_failures (tcp_failed ∷ arrivals) = suc (tcp_failures arrivals)
  tcp_failures (tcp_stream stream addr shaken ∷ arrivals) = tcp_failures arrivals

  accept_from-skips :
      (slept : ℕ) (before : List (Arrival Stream Addr)) (stream : Stream) (addr : Addr)
      (rest : List (Arrival Stream Addr))
      → All Fails before
      → accept_from slept (before ++ tcp_stream stream addr true ∷ rest)
        ≡ some (record {
          stream = stream;
          addr = addr;
          rest = rest;
          slept = slept + tcp_failures before;
        })
  unfolding accept_from
  accept_from-skips slept [] stream addr rest h =
      let e : slept ≡ slept + 0 = omega arith in
      ap (λ n. some (record { stream = stream; addr = addr; rest = rest; slept = n })) e
  accept_from-skips slept (tcp_failed ∷ before) stream addr rest (here, h) =
      let e : slept + 1 + tcp_failures before ≡ slept + suc (tcp_failures before) = omega arith in
      accept_from-skips (slept + 1) before stream addr rest h
      ∙ ap (λ n. some (record { stream = stream; addr = addr; rest = rest; slept = n })) e
  accept_from-skips slept (tcp_stream s a shaken ∷ before) stream addr rest (here, h) =
      let ih = accept_from-skips slept before stream addr rest h in rw here ih

  -- Neither an error of the TCP listener nor a handshake that fails ends the loop: `accept` returns
  -- the first connection whose handshake succeeds, whatever fails before it, leaves what comes after
  -- it, and has slept a second for each error of the listener.
  pub accept-first :
      (before : List (Arrival Stream Addr)) (stream : Stream) (addr : Addr)
      (rest : List (Arrival Stream Addr))
      → All Fails before
      → accept (before ++ tcp_stream stream addr true ∷ rest)
        ≡ some (record { stream = stream; addr = addr; rest = rest; slept = tcp_failures before })
  unfolding accept
  accept-first before stream addr rest h =
      let e : 0 + tcp_failures before ≡ tcp_failures before = omega arith in
      accept_from-skips 0 before stream addr rest h
      ∙ ap (λ n. some (record { stream = stream; addr = addr; rest = rest; slept = n })) e
