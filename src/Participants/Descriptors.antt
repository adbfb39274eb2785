-- ===== src/Participants/Descriptors.antt =====
-- The loop over the descriptors of the transports, and when it does not end.
use dds_router.Base.{ℕ, zero, suc, ◌≡◌, refl, true, false, none, List, [], ◌∷◌, Text, text_eq}
use dds_router.Types.Environment.{Environment, v4}
use dds_router.Types.Address.{Address, tcp, is_valid}
use dds_router.Types.TlsConfiguration.{TlsConfiguration, TransportDescriptor, is_active}
use dds_router.Participants.Configuration.{DiscoveryServerParticipantConfiguration}
use dds_router.Participants.Attributes.{
  Transport, tcp_v4_transport, Scan, out_of_fuel, new_scan, with_wan_address, take_descriptor,
  new_descriptor, listen, listen_all, listen_transport, listen_tcp_v4,
}
use dds_router.Participants.DiscoveryServer.{discovery_server_attributes}

-- The loop over the descriptors does not end if the first one has another address.
take_descriptor-other :
    (n : ℕ) (ip : Text) (t : Transport) (l : List Transport)
    → with_wan_address ip t ≡ none
    → take_descriptor n ip (t ∷ l) ≡ out_of_fuel
unfolding take_descriptor
take_descriptor-other zero ip t l h = refl
take_descriptor-other (suc n) ip t l h = cc (h, take_descriptor-other n ip t l h)

-- A valid TCP address of version 4.
abbrev pub IsTcpV4 : Environment → Address → Type 0
IsTcpV4 env a = (is_valid env a ≡ true) × (a.transport_protocol ≡ tcp) × (a.ip_version ≡ v4)

with_wan_address-other :
    (ip wan : Text) (ports : List ℕ) (d : TransportDescriptor)
    → text_eq ip wan ≡ false
    → with_wan_address ip (tcp_v4_transport wan ports d) ≡ none
unfolding with_wan_address
with_wan_address-other ip wan ports d h = cc h

listen_all-out_of_fuel :
    (fuel : ℕ) (env : Environment) (fresh : TransportDescriptor) (t : TlsConfiguration)
    (a b : Address) (l : List Address) (s : Scan)
    → s.params.user_transports ≡ []
    → is_active t ≡ false
    → IsTcpV4 env a
    → IsTcpV4 env b
    → text_eq b.ip a.ip ≡ false
    → listen_all fuel env fresh t (a ∷ b ∷ l) s ≡ out_of_fuel
unfolding listen_all listen listen_transport listen_tcp_v4 take_descriptor new_descriptor
listen_all-out_of_fuel zero env fresh t a b l s e off (va, ta, ia) hb other = cc (va, ta, ia)
listen_all-out_of_fuel (suc n) env fresh t a b l s e off (va, ta, ia) (vb, tb, ib) other =
    let w = with_wan_address-other b.ip a.ip (a.port ∷ []) fresh other in
    cc (
      e,
      off,
      va,
      ta,
      ia,
      vb,
      tb,
      ib,
      w,
      take_descriptor-other n b.ip (tcp_v4_transport a.ip (a.port ∷ []) fresh) [] w,
    )

-- If TLS is not active, and the first two listening addresses are valid TCP addresses of version 4
-- with different ips, then the computation of the attributes of a discovery server does not end,
-- whatever the fuel.
pub discovery_server_attributes-out_of_fuel :
    (fuel : ℕ) (env : Environment) (fresh : TransportDescriptor)
    (c : DiscoveryServerParticipantConfiguration) (a b : Address) (l : List Address)
    → c.listening_addresses ≡ a ∷ b ∷ l
    → is_active c.tls_configuration ≡ false
    → IsTcpV4 env a
    → IsTcpV4 env b
    → text_eq b.ip a.ip ≡ false
    → discovery_server_attributes env fuel fresh c ≡ out_of_fuel
unfolding discovery_server_attributes new_scan
discovery_server_attributes-out_of_fuel fuel env fresh c a b l h off ha hb other = cc (
  h,
  listen_all-out_of_fuel fuel env fresh c.tls_configuration a b l (new_scan c.parent.parent.id.id)
      refl off ha hb other,
)
