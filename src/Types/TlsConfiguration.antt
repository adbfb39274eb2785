-- ===== src/Types/TlsConfiguration.antt =====
-- types/security/tls/TlsConfiguration.cpp and TlsConfiguration.hpp: the TLS settings of a participant
-- and how they are given to a TCP transport.
use dds_router.Base.{
  Bool, true, false, not, ◌&&◌, ◌||◌, Option, none, some, List, [], ◌∷◌, ◌++◌, Text, if◌then◌else◌,
  is_empty,
}

pub data TlsKind : Type 0 where
  inactive client server both : TlsKind

pub record TlsConfiguration : Type 0 where
  pub kind : TlsKind
  pub verify_peer : Bool
  pub certificate_authority_file : Text
  pub sni_server_name : Text
  pub private_key_file_password : Text
  pub private_key_file : Text
  pub certificate_chain_file : Text
  pub dh_params_file : Text

-- The members of a new object.
unfoldable pub new_tls : TlsConfiguration
new_tls = record {
  kind = inactive;
  verify_peer = true;
  certificate_authority_file = [];
  sni_server_name = [];
  private_key_file_password = [];
  private_key_file = [];
  certificate_chain_file = [];
  dh_params_file = [];
}

unfoldable pub is_active : TlsConfiguration → Bool
is_active t = elim t.kind [ inactive ↦ false | _ ↦ true ]

abbrev kind_eq : TlsKind → TlsKind → Bool
kind_eq inactive inactive = true
kind_eq client client = true
kind_eq server server = true
kind_eq both both = true
kind_eq _ _ = false

unfoldable pub compatible : TlsKind → TlsConfiguration → Bool
compatible k t =
    not (kind_eq t.kind inactive)
    && (kind_eq k t.kind || (kind_eq t.kind both && not (kind_eq k inactive)))

-- `is_valid_kind<TlsKind::client>`
unfoldable pub is_valid_client : TlsConfiguration → Bool
is_valid_client t =
    if t.verify_peer then if is_empty t.certificate_authority_file then false else true else true

-- `is_valid_kind<TlsKind::server>`
unfoldable pub is_valid_server : TlsConfiguration → Bool
is_valid_server t =
    if is_empty t.private_key_file
    then false
    else if is_empty t.dh_params_file
    then false
    else if is_empty t.certificate_chain_file
    then false
    else true

-- `is_valid_kind<TlsKind::both>`
unfoldable pub is_valid_both : TlsConfiguration → Bool
unfolding is_valid_client is_valid_server
is_valid_both t = is_valid_client t && is_valid_server t

unfoldable pub tls_is_valid : TlsConfiguration → Bool
unfolding is_valid_both
tls_is_valid t = elim t.kind [
  | client ↦ is_valid_client t
  | server ↦ is_valid_server t
  | both ↦ is_valid_both t
  | inactive ↦ true
]

-- The TLS part of a TCPTransportDescriptor of Fast DDS. Options and modes are added to sets.
pub data TlsOption : Type 0 where
  default_workarounds single_dh_use no_sslv2 : TlsOption

pub data TlsVerifyMode : Type 0 where
  verify_peer_mode verify_none verify_fail_if_no_peer_cert : TlsVerifyMode

pub record TransportDescriptor : Type 0 where
  pub apply_security : Bool
  pub options : List TlsOption
  pub verify_modes : List TlsVerifyMode
  pub verify_file : Text
  pub server_name : Text
  pub password : Text
  pub private_key : Text
  pub cert_chain_file : Text
  pub tmp_dh_file : Text

unfoldable pub enable_tls_client :
    Bool → TlsConfiguration → TransportDescriptor → TransportDescriptor
enable_tls_client only_client t d =
    let modes =
      if only_client && t.verify_peer
      then d.verify_modes ++ (verify_fail_if_no_peer_cert ∷ [])
      else d.verify_modes in
    record d {
      verify_modes = modes;
      verify_file = t.certificate_authority_file;
      server_name = t.sni_server_name;
    }

unfoldable pub enable_tls_server : TlsConfiguration → TransportDescriptor → TransportDescriptor
enable_tls_server t d = record d {
  password = t.private_key_file_password;
  private_key = t.private_key_file;
  cert_chain_file = t.certificate_chain_file;
  tmp_dh_file = t.dh_params_file;
}

-- `none` is ConfigurationException.
unfoldable pub enable_tls :
    Bool → TlsConfiguration → TransportDescriptor → Option TransportDescriptor
unfolding enable_tls_client enable_tls_server compatible
enable_tls as_client t d =
    let e : TransportDescriptor = record d {
      apply_security = true;
      options = d.options ++ (default_workarounds ∷ single_dh_use ∷ no_sslv2 ∷ []);
      verify_modes =
          d.verify_modes ++ ((if t.verify_peer then verify_peer_mode else verify_none) ∷ []);
    } in
    if as_client
    then (if not (compatible client t) then none else some (enable_tls_client true t e))
    else if not (compatible server t)
    then none
    else let f = enable_tls_server t e in
      some (if compatible client t then enable_tls_client false t f else f)
