-- ===== src/Participants/Security.antt =====
-- A valid configuration never makes the TLS settings throw when the attributes are computed.
use dds_router.Base.{
  ℕ, zero, suc, ◌≡◌, refl, Bool, true, false, not, ◌||◌, List, [], ◌∷◌, arith, Text, is_empty, ◌⊎◌,
  inl, inr, ◌∙◌,
}
use dds_router.Types.Environment.{Environment}
use dds_router.Types.Address.{Address}
use dds_router.Types.ConnectionAddress.{DiscoveryServerConnectionAddress}
use dds_router.Types.TlsConfiguration.{
  TlsConfiguration, TransportDescriptor, client, server, is_active, compatible, enable_tls,
}
use dds_router.Participants.Configuration.{
  DiscoveryServerParticipantConfiguration, discovery_server_is_valid,
  InitialPeersParticipantConfiguration, initial_peers_is_valid, tls_fits,
}
use dds_router.Participants.Attributes.{
  Transport, Scan, Outcome, done, thrown, out_of_fuel, new_scan, take_descriptor, new_descriptor,
  listen, listen_all, listen_transport, listen_tcp_v4, listen_tcp_v6, connection_tcp,
  add_transports,
}
use dds_router.Participants.DiscoveryServer.{connect_servers, discovery_server_attributes}
use dds_router.Participants.InitialPeers.{connect_peers, initial_peers_attributes}

-- The outcome is an exception.
abbrev pub threw {ℓ} : {A : Type ℓ} → Outcome A → Bool
threw thrown = true
threw _ = false

-- TLS is not active, or can be that of a server, or of a client.
abbrev serves : TlsConfiguration → Bool
serves t = not (is_active t) || compatible server t

abbrev connects : TlsConfiguration → Bool
connects t = not (is_active t) || compatible client t

pub Outcome-cases {ℓ} :
    {A : Type ℓ} (o : Outcome A) → (threw o ≡ false) → (o ≡ out_of_fuel) ⊎ ((a : A) × (o ≡ done a))
Outcome-cases (done a) h = inr (a, refl)
Outcome-cases thrown h = absurd (cc h)
Outcome-cases out_of_fuel h = inl refl

new_descriptor-server :
    (fresh : TransportDescriptor) (t : TlsConfiguration)
    → serves t ≡ true
    → threw (new_descriptor fresh false t) ≡ false
unfolding new_descriptor enable_tls
new_descriptor-server fresh t h = ground arith

new_descriptor-client :
    (fresh : TransportDescriptor) (t : TlsConfiguration)
    → connects t ≡ true
    → threw (new_descriptor fresh true t) ≡ false
unfolding new_descriptor enable_tls
new_descriptor-client fresh t h = ground arith

take_descriptor-threw :
    (n : ℕ) (ip : Text) (l : List Transport) → threw (take_descriptor n ip l) ≡ false
unfolding take_descriptor
take_descriptor-threw zero ip l = refl
take_descriptor-threw (suc n) ip [] = refl
take_descriptor-threw (suc n) ip (t ∷ l) = ground (arith, take_descriptor-threw n ip (t ∷ l))

module _ (fuel : ℕ) (env : Environment) (fresh : TransportDescriptor) (t : TlsConfiguration) where
  listen-threw :
      (a : Address) (s : Scan) → serves t ≡ true → threw (listen fuel env fresh t a s) ≡ false
  unfolding listen listen_transport listen_tcp_v4 listen_tcp_v6
  listen-threw a s h = ground (
    arith,
    new_descriptor-server fresh t h,
    take_descriptor-threw fuel a.ip s.params.user_transports,
  )

  -- A listening address leaves the flags of the connections.
  listen-flags :
      (a : Address) (s r : Scan)
      → listen fuel env fresh t a s ≡ done r
      → (r.has_connection_tcp_ipv4 ≡ s.has_connection_tcp_ipv4)
        × (r.has_connection_tcp_ipv6 ≡ s.has_connection_tcp_ipv6)
  unfolding listen listen_transport listen_tcp_v4 listen_tcp_v6
  listen-flags a s r h = ground arith

  listen_all-done :
      (a : Address) (l : List Address) (s r : Scan)
      → listen fuel env fresh t a s ≡ done r
      → listen_all fuel env fresh t (a ∷ l) s ≡ listen_all fuel env fresh t l r
  unfolding listen_all
  listen_all-done a l s r e = cc e

  listen_all-stops :
      (a : Address) (l : List Address) (s : Scan)
      → listen fuel env fresh t a s ≡ out_of_fuel
      → listen_all fuel env fresh t (a ∷ l) s ≡ out_of_fuel
  unfolding listen_all
  listen_all-stops a l s e = cc e

  -- The loop over the listening addresses does not throw, and leaves the flags of the connections.
  listen_all-Listened :
      (l : List Address) (s : Scan)
      → (serves t || is_empty l) ≡ true
      → (listen_all fuel env fresh t l s ≡ out_of_fuel)
        ⊎ ((r : Scan) × (listen_all fuel env fresh t l s ≡ done r)
            × (r.has_connection_tcp_ipv4 ≡ s.has_connection_tcp_ipv4)
            × (r.has_connection_tcp_ipv6 ≡ s.has_connection_tcp_ipv6))
  unfolding listen_all
  listen_all-Listened [] s h = inr (s, refl, refl, refl)
  listen_all-Listened (a ∷ l) s h =
      elim (Outcome-cases (listen fuel env fresh t a s) (listen-threw a s (ground (arith, h)))) [
        | inl e ↦ inl (listen_all-stops a l s e)
        | inr (r, e) ↦
            let (f, g) = listen-flags a s r e in
            elim (listen_all-Listened l r (ground (arith, h))) [
              | inl k ↦ inl (listen_all-done a l s r e ∙ k)
              | inr (q, k, m, n) ↦ inr (q, listen_all-done a l s r e ∙ k, m ∙ f, n ∙ g)
            ]
      ]

  add_transports-threw :
      (s : Scan)
      → (not (s.has_connection_tcp_ipv4 || s.has_connection_tcp_ipv6) || connects t) ≡ true
      → threw (add_transports fuel env fresh t s) ≡ false
  unfolding add_transports connection_tcp
  add_transports-threw s h = ground (arith, new_descriptor-client fresh t)

-- If a configuration is valid, then its TLS settings fit its addresses.
tls_fits-connects :
    (listens has_peers : Bool) (t : TlsConfiguration)
    → tls_fits listens has_peers t ≡ true
    → ((serves t || not listens) ≡ true) × ((connects t || not has_peers) ≡ true)
unfolding tls_fits
tls_fits-connects listens has_peers t h = (ground arith, ground arith)

discovery_server_is_valid-tls_fits :
    (env : Environment) (c : DiscoveryServerParticipantConfiguration)
    → discovery_server_is_valid env c ≡ true
    → tls_fits
        (not (is_empty c.listening_addresses))
        (not (is_empty c.connection_addresses))
        c.tls_configuration
      ≡ true
unfolding discovery_server_is_valid
discovery_server_is_valid-tls_fits env c h = ground (arith, h)

initial_peers_is_valid-tls_fits :
    (env : Environment) (c : InitialPeersParticipantConfiguration)
    → initial_peers_is_valid env c ≡ true
    → tls_fits
        (not (is_empty c.listening_addresses))
        (not (is_empty c.connection_addresses))
        c.tls_configuration
      ≡ true
unfolding initial_peers_is_valid
initial_peers_is_valid-tls_fits env c h = ground (arith, h)

-- Without connection addresses no flag is set.
connect_servers-flags :
    (env : Environment) (t : TlsConfiguration) (l : List DiscoveryServerConnectionAddress)
    (s : Scan)
    → (connects t || is_empty l) ≡ true
    → s.has_connection_tcp_ipv4 ≡ false
    → s.has_connection_tcp_ipv6 ≡ false
    → let r = connect_servers env l s in
      (not (r.has_connection_tcp_ipv4 || r.has_connection_tcp_ipv6) || connects t) ≡ true
unfolding connect_servers
connect_servers-flags env t [] s h f g = ground arith
connect_servers-flags env t (c ∷ l) s h f g = ground arith

connect_peers-flags :
    (env : Environment) (t : TlsConfiguration) (l : List Address) (s : Scan)
    → (connects t || is_empty l) ≡ true
    → s.has_connection_tcp_ipv4 ≡ false
    → s.has_connection_tcp_ipv6 ≡ false
    → let r = connect_peers env l s in
      (not (r.has_connection_tcp_ipv4 || r.has_connection_tcp_ipv6) || connects t) ≡ true
unfolding connect_peers
connect_peers-flags env t [] s h f g = ground arith
connect_peers-flags env t (c ∷ l) s h f g = ground arith

pub discovery_server_attributes-threw :
    (fuel : ℕ) (env : Environment) (fresh : TransportDescriptor)
    (c : DiscoveryServerParticipantConfiguration)
    → discovery_server_is_valid env c ≡ true
    → threw (discovery_server_attributes env fuel fresh c) ≡ false
unfolding discovery_server_attributes new_scan
discovery_server_attributes-threw fuel env fresh c h =
    let t = c.tls_configuration in
    let (can_serve, can_connect) =
      tls_fits-connects (not (is_empty c.listening_addresses))
        (not (is_empty c.connection_addresses)) t (discovery_server_is_valid-tls_fits env c h) in
    elim (listen_all-Listened fuel env fresh t c.listening_addresses
      (new_scan c.parent.parent.id.id) (ground (arith, can_serve))) [
        | inl e ↦ ground (arith, e)
        | inr (s, e, f, g) ↦ ground (
          arith,
          e,
          connect_servers-flags env t c.connection_addresses s (ground (arith, can_connect)) f g,
          add_transports-threw fuel env fresh t,
        )
      ]

pub initial_peers_attributes-threw :
    (fuel : ℕ) (env : Environment) (fresh : TransportDescriptor)
    (c : InitialPeersParticipantConfiguration)
    → initial_peers_is_valid env c ≡ true
    → threw (initial_peers_attributes env fuel fresh c) ≡ false
unfolding initial_peers_attributes new_scan
initial_peers_attributes-threw fuel env fresh c h =
    let t = c.tls_configuration in
    let (can_serve, can_connect) =
      tls_fits-connects (not (is_empty c.listening_addresses))
        (not (is_empty c.connection_addresses)) t (initial_peers_is_valid-tls_fits env c h) in
    elim (listen_all-Listened fuel env fresh t c.listening_addresses
      (new_scan c.parent.parent.id.id) (ground (arith, can_serve))) [
        | inl e ↦ ground (arith, e)
        | inr (s, e, f, g) ↦ ground (
          arith,
          e,
          connect_peers-flags env t c.connection_addresses s (ground (arith, can_connect)) f g,
          add_transports-threw fuel env fresh t,
        )
      ]

-- If a configuration of a discovery server and one of a participant with initial peers are valid, then
-- no exception leaves the computation of the attributes of either, whatever the fuel.
pub attributes-threw :
    (fuel : ℕ) (env : Environment) (fresh : TransportDescriptor)
    (c : DiscoveryServerParticipantConfiguration) (d : InitialPeersParticipantConfiguration)
    → discovery_server_is_valid env c ≡ true
    → initial_peers_is_valid env d ≡ true
    → (threw (discovery_server_attributes env fuel fresh c) ≡ false)
      × (threw (initial_peers_attributes env fuel fresh d) ≡ false)
attributes-threw fuel env fresh c d h k = (
  discovery_server_attributes-threw fuel env fresh c h,
  initial_peers_attributes-threw fuel env fresh d k,
)
