-- ===== src/Participants/Transports.antt =====
-- Which UDP transports a discovery server gets for its listening addresses.
use dds_router.Base.{
  ℕ, zero, suc, ◌≡◌, refl, sym, subst, Bool, true, false, not, ◌&&◌, ◌||◌, Option, some, List, [],
  ◌∷◌, ◌++◌, arith, Text, if◌then◌else◌, any,
}
use dds_router.Types.Environment.{Environment, v6}
use dds_router.Types.Address.{Address, udp, is_valid}
use dds_router.Types.ConnectionAddress.{DiscoveryServerConnectionAddress}
use dds_router.Participants.Attributes
use dds_router.Participants.Attributes.{super_client}
use dds_router.Types.TlsConfiguration.{TlsConfiguration, TransportDescriptor}
use dds_router.Participants.Configuration.{DiscoveryServerParticipantConfiguration}
use dds_router.Participants.Attributes.{
  Transport, tcp_v4_transport, tcp_v6_transport, udp_v4_transport, udp_v6_transport, Scan, Outcome,
  done, thrown, out_of_fuel, new_scan, push_transport, ParticipantAttributes, with_wan_address,
  take_descriptor, new_descriptor, listen, listen_all, listen_transport, listen_tcp_v4,
  listen_tcp_v6, connection_tcp, add_transports,
}
use dds_router.Participants.DiscoveryServer.{connect_servers, discovery_server_attributes}

abbrev pub is_udp_v4 : Transport → Bool
is_udp_v4 udp_v4_transport = true
is_udp_v4 _ = false

any-append : (p : Transport → Bool) (l m : List Transport) → any p (l ++ m) ≡ (any p l || any p m)
any-append p [] m = refl
any-append p (x ∷ l) m = ground (arith, any-append p l m)

any-tcp_v4 :
    (l : List Transport) (ip : Text) (ports : List ℕ) (d : TransportDescriptor)
    → any is_udp_v4 (l ++ (tcp_v4_transport ip ports d ∷ [])) ≡ any is_udp_v4 l
any-tcp_v4 l ip ports d = ground (arith, any-append is_udp_v4 l (tcp_v4_transport ip ports d ∷ []))

any-tcp_v6 :
    (l : List Transport) (ports : List ℕ) (d : TransportDescriptor)
    → any is_udp_v4 (l ++ (tcp_v6_transport ports d ∷ [])) ≡ any is_udp_v4 l
any-tcp_v6 l ports d = ground (arith, any-append is_udp_v4 l (tcp_v6_transport ports d ∷ []))

any-udp_v6 : (l : List Transport) → any is_udp_v4 (l ++ (udp_v6_transport ∷ [])) ≡ any is_udp_v4 l
any-udp_v6 l = ground (arith, any-append is_udp_v4 l (udp_v6_transport ∷ []))

-- A transport of UDP of version 4 is among those that an outcome has.
abbrev left_udp_v4 : Outcome (Option (List ℕ × TransportDescriptor) × List Transport) → Bool
left_udp_v4 (done (d, rest)) = any is_udp_v4 rest
left_udp_v4 _ = false

abbrev has_udp_v4 : Outcome Scan → Bool
has_udp_v4 (done r) = any is_udp_v4 r.params.user_transports
has_udp_v4 _ = false

take_descriptor-left :
    (n : ℕ) (ip : Text) (l : List Transport)
    → any is_udp_v4 l ≡ false
    → left_udp_v4 (take_descriptor n ip l) ≡ false
unfolding take_descriptor
take_descriptor-left zero ip l k = refl
take_descriptor-left (suc n) ip [] k = refl
take_descriptor-left (suc n) ip (t ∷ l) k = ground (arith, k, take_descriptor-left n ip (t ∷ l) k)

-- A valid UDP address of version 6.
abbrev pub IsUdpV6 : Environment → Address → Type 0
IsUdpV6 env a = (is_valid env a ≡ true) × (a.transport_protocol ≡ udp) × (a.ip_version ≡ v6)

module _ (fuel : ℕ) (env : Environment) (fresh : TransportDescriptor) (t : TlsConfiguration) where
  listen_tcp_v4-has_udp_v4 :
      (a : Address) (s : Scan)
      → any is_udp_v4 s.params.user_transports ≡ false
      → has_udp_v4 (listen_tcp_v4 fuel env fresh t a s) ≡ false
  unfolding listen_tcp_v4
  listen_tcp_v4-has_udp_v4 a s k =
      grind (arith, take_descriptor-left fuel a.ip s.params.user_transports k, any-tcp_v4)

  listen_tcp_v6-has_udp_v4 :
      (a : Address) (s : Scan)
      → any is_udp_v4 s.params.user_transports ≡ false
      → has_udp_v4 (listen_tcp_v6 fuel env fresh t a s) ≡ false
  unfolding listen_tcp_v6
  listen_tcp_v6-has_udp_v4 a s k = grind (arith, any-tcp_v6)

  listen-has_udp_v4 :
      (a : Address) (s : Scan)
      → any is_udp_v4 s.params.user_transports ≡ false
      → has_udp_v4 (listen fuel env fresh t a s) ≡ false
  unfolding listen listen_transport
  listen-has_udp_v4 a s k =
      let r : Scan = record s { has_listening_addresses = true } in
      ground (arith, k, listen_tcp_v4-has_udp_v4 a r k, listen_tcp_v6-has_udp_v4 a r k)

  -- The outcome will give no transport of UDP of version 4.
  abbrev drops : Outcome Scan → Bool
  drops (done r) = not r.has_udp_ipv4 && not (any is_udp_v4 r.params.user_transports)
  drops _ = true

  listen-drops :
      (a : Address) (s : Scan)
      → IsUdpV6 env a
      → any is_udp_v4 s.params.user_transports ≡ false
      → drops (listen fuel env fresh t a s) ≡ true
  unfolding listen listen_transport
  listen-drops a s (v, p, i) k = ground (arith, v, p, i, k)

  listen_all-drops :
      (l : List Address) (a : Address) (s : Scan)
      → IsUdpV6 env a
      → any is_udp_v4 s.params.user_transports ≡ false
      → drops (listen_all fuel env fresh t (l ++ (a ∷ [])) s) ≡ true
  unfolding listen_all
  listen_all-drops [] a s u k = all-one (listen fuel env fresh t a s) (listen-drops a s u k)
    where
      all-one :
          (o : Outcome Scan)
          → drops o ≡ true
          → drops (elim o [ out_of_fuel ↦ out_of_fuel | thrown ↦ thrown | done r ↦ done r ]) ≡ true
      all-one (done r) h = h
      all-one thrown h = refl
      all-one out_of_fuel h = refl
  listen_all-drops (b ∷ l) a s u k =
      all-cons (listen fuel env fresh t b s) (listen-has_udp_v4 b s k)
        (λ r. listen_all-drops l a r u)
    where
      all-cons :
          (o : Outcome Scan)
          → has_udp_v4 o ≡ false
          → ((r : Scan)
              → any is_udp_v4 r.params.user_transports ≡ false
              → drops (listen_all fuel env fresh t (l ++ (a ∷ [])) r) ≡ true)
          → drops (elim o [
            | out_of_fuel ↦ out_of_fuel
            | thrown ↦ thrown
            | done r ↦ listen_all fuel env fresh t (l ++ (a ∷ [])) r
          ])
            ≡ true
      all-cons (done r) h rest = rest r h
      all-cons thrown h rest = refl
      all-cons out_of_fuel h rest = refl

  connection_tcp-drops :
      (connects listens : Bool) (s : Scan)
      → drops (done s) ≡ true
      → (drops (connection_tcp fuel env fresh t connects listens (tcp_v4_transport [] []) s) ≡ true)
        × (drops (connection_tcp fuel env fresh t connects listens (tcp_v6_transport []) s) ≡ true)
  unfolding connection_tcp
  connection_tcp-drops connects listens s h =
      (grind (arith, any-tcp_v4, h), grind (arith, any-tcp_v6, h))

  -- The UDP transports are the last ones.
  abbrev udp_transports : Scan → Outcome Scan
  udp_transports q =
      let u = if q.has_udp_ipv4 then push_transport fuel env fresh t udp_v4_transport q else q in
      done (if u.has_udp_ipv6 then push_transport fuel env fresh t udp_v6_transport u else u)

  udp_transports-has_udp_v4 :
      (q : Scan) → drops (done q) ≡ true → has_udp_v4 (udp_transports q) ≡ false
  udp_transports-has_udp_v4 q h = grind (arith, any-udp_v6, h)

  then-has_udp_v4 :
      (o : Outcome Scan) (next : Scan → Outcome Scan)
      → drops o ≡ true
      → ((r : Scan) → drops (done r) ≡ true → has_udp_v4 (next r) ≡ false)
      → has_udp_v4 (elim o [ out_of_fuel ↦ out_of_fuel | thrown ↦ thrown | done r ↦ next r ])
        ≡ false
  then-has_udp_v4 (done r) next h k = k r h
  then-has_udp_v4 thrown next h k = refl
  then-has_udp_v4 out_of_fuel next h k = refl

  abbrev tcp_v6_transports : Scan → Outcome Scan
  tcp_v6_transports r =
      connection_tcp fuel env fresh t r.has_connection_tcp_ipv6 r.has_listening_tcp_ipv6
        (tcp_v6_transport []) r

  abbrev later_transports : Scan → Outcome Scan
  later_transports r = elim (tcp_v6_transports r) [
    | out_of_fuel ↦ out_of_fuel
    | thrown ↦ thrown
    | done q ↦ udp_transports q
  ]

  later_transports-has_udp_v4 :
      (r : Scan) → drops (done r) ≡ true → has_udp_v4 (later_transports r) ≡ false
  later_transports-has_udp_v4 r k =
      then-has_udp_v4 (tcp_v6_transports r) udp_transports
        (connection_tcp-drops r.has_connection_tcp_ipv6 r.has_listening_tcp_ipv6 r k).1
        udp_transports-has_udp_v4

  add_transports-has_udp_v4 :
      (s : Scan) → drops (done s) ≡ true → has_udp_v4 (add_transports fuel env fresh t s) ≡ false
  unfolding add_transports
  add_transports-has_udp_v4 s h =
      then-has_udp_v4
        (connection_tcp fuel env fresh t s.has_connection_tcp_ipv4 s.has_listening_tcp_ipv4
          (tcp_v4_transport [] []) s)
        later_transports
        (connection_tcp-drops s.has_connection_tcp_ipv4 s.has_listening_tcp_ipv4 s h).0
        later_transports-has_udp_v4

params-has_udp_v4 :
    (o : Outcome Scan) (p : ParticipantAttributes)
    → has_udp_v4 o ≡ false
    → elim o [ out_of_fuel ↦ out_of_fuel | thrown ↦ thrown | done u ↦ done (u.params) ] ≡ done p
    → any is_udp_v4 p.user_transports ≡ false
params-has_udp_v4 (done u) p h e = ground (arith, h, e)
params-has_udp_v4 thrown p h e = cc e
params-has_udp_v4 out_of_fuel p h e = cc e

connect_servers_empty :
    (env : Environment) (l : List DiscoveryServerConnectionAddress) (s : Scan)
    → l ≡ []
    → connect_servers env l s ≡ s
unfolding connect_servers
connect_servers_empty env l s h = cc h

-- What is set between the loops and the transports.
abbrev with_server : DiscoveryServerParticipantConfiguration → Scan → Scan
with_server c r = record r {
  params = record (r.params) {
    discovery_protocol = if r.has_listening_addresses then Attributes.server else super_client;
    prefix = some c.discovery_server_guid_prefix;
  };
}

attributes-drops :
    (fuel : ℕ) (env : Environment) (fresh : TransportDescriptor)
    (c : DiscoveryServerParticipantConfiguration) (p : ParticipantAttributes) (o : Outcome Scan)
    → c.connection_addresses ≡ []
    → drops fuel env fresh c.tls_configuration o ≡ true
    → elim o [
      | out_of_fuel ↦ out_of_fuel
      | thrown ↦ thrown
      | done s ↦
          elim (add_transports fuel env fresh c.tls_configuration
            (with_server c (connect_servers env c.connection_addresses s))) [
              | out_of_fuel ↦ out_of_fuel
              | thrown ↦ thrown
              | done v ↦ done (v.params)
            ]
    ]
      ≡ done p
    → any is_udp_v4 p.user_transports ≡ false
attributes-drops fuel env fresh c p (done s) n k d =
    let t = c.tls_configuration in
    let r = with_server c (connect_servers env c.connection_addresses s) in
    let dropped =
      subst (λ q. drops fuel env fresh t (done q) ≡ true)
        (sym (connect_servers_empty env c.connection_addresses s n)) k in
    params-has_udp_v4 (add_transports fuel env fresh t r) p
      (add_transports-has_udp_v4 fuel env fresh t r dropped) d
attributes-drops fuel env fresh c p thrown n k d = cc d
attributes-drops fuel env fresh c p out_of_fuel n k d = cc d

-- If the last listening address of a discovery server is a valid UDP address of version 6, and it has
-- no connection addresses, then its attributes have no UDP transport of version 4, whether it listens
-- on UDP addresses of version 4 or not.
pub discovery_server_attributes-udp_v4 :
    (fuel : ℕ) (env : Environment) (fresh : TransportDescriptor)
    (c : DiscoveryServerParticipantConfiguration) (l : List Address) (a : Address)
    (p : ParticipantAttributes)
    → IsUdpV6 env a
    → c.listening_addresses ≡ l ++ (a ∷ [])
    → c.connection_addresses ≡ []
    → discovery_server_attributes env fuel fresh c ≡ done p
    → any is_udp_v4 p.user_transports ≡ false
unfolding discovery_server_attributes new_scan
discovery_server_attributes-udp_v4 fuel env fresh c l a p u e n h =
    let t = c.tls_configuration in
    let s = new_scan c.parent.parent.id.id in
    attributes-drops fuel env fresh c p (listen_all fuel env fresh t c.listening_addresses s) n
      (subst (λ m. drops fuel env fresh t (listen_all fuel env fresh t m s) ≡ true) (sym e)
        (listen_all-drops fuel env fresh t l a s u refl))
      h
