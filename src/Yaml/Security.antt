-- ===== src/Yaml/Security.antt =====
-- The TLS settings that are read can serve the roles that they are complete for.
use dds_router.Base.{◌≡◌, true, some, arith}
use dds_router.Types.TlsConfiguration.{
  TlsConfiguration, client, server, is_active, compatible, is_valid_client, is_valid_server,
  tls_is_valid,
}
use dds_router.Yaml.Tags.{
  tls_private_key_tag, tls_password_tag, tls_ca_tag, tls_cert_tag, tls_sni_host_tag,
  tls_dhparams_tag, tls_peer_verification_tag,
}
use dds_router.Yaml.Reader.{Libraries, Yaml, get_or, get_text, get_bool}
use dds_router.Yaml.Values.{with_kind, fill_tls}
use dds_router.Yaml.Classes.{bind-eq-some}

-- The settings are valid and active, and their kind allows a role exactly if they are complete for it.
abbrev pub Chosen : TlsConfiguration → Type 0
Chosen t =
    (tls_is_valid t ≡ true)
    × (is_active t ≡ true)
    × (compatible client t ≡ is_valid_client t)
    × (compatible server t ≡ is_valid_server t)

with_kind-Chosen : (lib : Libraries) (t u : TlsConfiguration) → with_kind lib t ≡ some u → Chosen u
unfolding with_kind tls_is_valid is_active compatible
with_kind-Chosen lib t u h = ground (arith, h)

-- TLS settings that are read, over any settings before, are valid and active, and they are compatible
-- with a client or with a server exactly if they are complete for that role.
pub fill_tls-Chosen :
    (lib : Libraries) (before after : TlsConfiguration) (yml : Yaml lib)
    → fill_tls lib before yml ≡ some after
    → Chosen after
unfolding fill_tls
fill_tls-Chosen lib before after yml h =
    let (a, e, i) =
      bind-eq-some (get_or lib before.private_key_file (get_text lib) yml tls_private_key_tag) _
        h in
    let (b, f, j) =
      bind-eq-some (get_or lib before.private_key_file_password (get_text lib) yml tls_password_tag)
        _ i in
    let (c, g, k) =
      bind-eq-some (get_or lib before.certificate_authority_file (get_text lib) yml tls_ca_tag) _
        j in
    let (d, m, l) =
      bind-eq-some (get_or lib before.certificate_chain_file (get_text lib) yml tls_cert_tag) _ k in
    let (s, n, o) =
      bind-eq-some (get_or lib before.sni_server_name (get_text lib) yml tls_sni_host_tag) _ l in
    let (p, q, r) =
      bind-eq-some (get_or lib before.dh_params_file (get_text lib) yml tls_dhparams_tag) _ o in
    let (v, w, x) =
      bind-eq-some (get_or lib before.verify_peer (get_bool lib) yml tls_peer_verification_tag) _
        r in
    with_kind-Chosen lib _ after x
