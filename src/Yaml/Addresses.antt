-- ===== src/Yaml/Addresses.antt =====
-- Which addresses a configuration can give.
use dds_router.Base.{
  ℕ, ◌≡◌, true, false, not, Option, some, arith, Text, is_some, none, List, [], ◌∷◌, ◌⊎◌, inl, inr,
  text_eq, text_eq_eq, Bool-cases, Option-cases, ap, sym, ◌∙◌,
}
use dds_router.Types.Environment.{IpVersion, v4, v6}
use dds_router.Types.Address.{
  Address, TransportProtocol, tcp, udp, from_ip_version, from_ip, from_domain_version, from_domain,
  default_port, default_transport_protocol,
}
use dds_router.Yaml.Tags.{
  address_ip_version_tag, address_ip_tag, address_dns_tag, address_port_tag,
  address_external_port_tag, address_transport_tag, address_transport_tcp_tag,
  address_transport_udp_tag, address_ip_version_v4_tag, address_ip_version_v6_tag,
}
use dds_router.Yaml.Reader.{
  Libraries, Yaml, is_tag_present, get_in_tag, get_value_in_tag, get_or, get_text, get_scalar,
  find_value, get_enumeration,
}
use dds_router.Yaml.Values.{
  get_ip_version, get_port, get_transport, get_optional, build_address, get_address,
}
use dds_router.Yaml.Classes.{bind-eq-some}

-- What an address has from what it is built with: its ports and its protocol, and the ip and its version
-- if there is an ip, otherwise the domain.
build_address-names :
    (lib : Libraries) (version : Option IpVersion) (ip domain : Option Text)
    (port external_port : ℕ) (tp : TransportProtocol) (a : Address)
    → build_address lib version ip domain port external_port tp ≡ some a
    → (a.port ≡ port)
      × (a.external_port ≡ external_port)
      × (a.transport_protocol ≡ tp)
      × (ip ≡ none → domain ≡ some a.domain)
      × (a.has_domain ≡ not (is_some ip))
      × (is_some ip ≡ true → ip ≡ some a.ip)
      × (is_some version ≡ true → version ≡ some a.ip_version)
unfolding build_address from_ip_version from_ip from_domain_version from_domain
build_address-names lib version ip domain port external_port tp a h = ground (arith, h)

module _ (lib : Libraries) {A : Type 0} (get : Yaml lib → Option A) (yml : Yaml lib)
    (tag : Text) where
  -- What a field with a default holds.
  get_or-read :
      (field a : A)
      → get_or lib field get yml tag ≡ some a
      → (is_some (lib.at yml tag) ≡ false → a ≡ field)
        × ((node : Yaml lib) → lib.at yml tag ≡ some node → get node ≡ some a)
  unfolding get_or get_in_tag get_value_in_tag is_tag_present
  get_or-read field a h = (ground (arith, h), λ node k. ground (arith, h, k))

  -- What is read for a tag that may be missing.
  get_optional-read :
      (o : Option A)
      → get_optional lib get yml tag ≡ some o
      → (lib.at yml tag ≡ none → o ≡ none)
        × ((node : Yaml lib) → lib.at yml tag ≡ some node → (get node ≡ o) × (is_some o ≡ true))
  unfolding get_in_tag get_value_in_tag is_tag_present
  get_optional-read o h = (λ k. ground (arith, h, k), λ node k. ground (arith, h, k))

-- The number of a node.
get_port-read :
    (lib : Libraries) (node : Yaml lib) (n : ℕ)
    → get_port lib node ≡ some n
    → lib.as_unsigned 16 node ≡ some n
unfolding get_port get_scalar
get_port-read lib node n h = ground (arith, h)

get_text-read :
    (lib : Libraries) (node : Yaml lib) (t : Text)
    → get_text lib node ≡ some t
    → lib.as_text node ≡ some t
unfolding get_text get_scalar
get_text-read lib node t h = ground (arith, h)

-- The words of a protocol and of a version.
abbrev pub protocol_word : TransportProtocol → Text
protocol_word tcp = address_transport_tcp_tag
protocol_word udp = address_transport_udp_tag

abbrev pub version_word : IpVersion → Text
version_word v4 = address_ip_version_v4_tag
version_word v6 = address_ip_version_v6_tag

find_value-two :
    (lib : Libraries) {A : Type 0} (s t u : Text) (a b c : A)
    → find_value lib ((s, a) ∷ (t, b) ∷ []) u ≡ some c
    → ((u ≡ s) × (a ≡ c)) ⊎ ((u ≡ t) × (b ≡ c))
unfolding find_value
find_value-two lib s t u a b c h = elim (Bool-cases (text_eq u s)) [
  | inl e ↦ inl (text_eq_eq u s e, ground (arith, h, e))
  | inr e ↦ elim (Bool-cases (text_eq u t)) [
    | inl f ↦ inr (text_eq_eq u t f, ground (arith, h, e, f))
    | inr f ↦ absurd (ground (arith, h, e, f))
  ]
]

get_enumeration-read :
    (lib : Libraries) {A : Type 0} (values : List (Text × A)) (node : Yaml lib) (a : A)
    → get_enumeration lib values node ≡ some a
    → (u : Text) × (lib.as_text node ≡ some u) × (find_value lib values u ≡ some a)
unfolding get_enumeration get_scalar
get_enumeration-read lib values node a h = elim (Option-cases (lib.as_text node)) [
  | inl e ↦ absurd (ground (arith, h, e))
  | inr (u, e) ↦ (u, e, ground (arith, h, e))
]

get_transport-read :
    (lib : Libraries) (node : Yaml lib) (tp : TransportProtocol)
    → get_transport lib node ≡ some tp
    → lib.as_text node ≡ some (protocol_word tp)
unfolding get_transport
get_transport-read lib node tp h =
    let (u, e, k) = get_enumeration-read lib _ node tp h in
    elim (find_value-two lib address_transport_tcp_tag address_transport_udp_tag u tcp udp tp k) [
      | inl (f, g) ↦ cc (e, f, g)
      | inr (f, g) ↦ cc (e, f, g)
    ]

get_ip_version-read :
    (lib : Libraries) (node : Yaml lib) (v : IpVersion)
    → get_ip_version lib node ≡ some v
    → lib.as_text node ≡ some (version_word v)
unfolding get_ip_version
get_ip_version-read lib node v h =
    let (u, e, k) = get_enumeration-read lib _ node v h in
    elim (find_value-two lib address_ip_version_v4_tag address_ip_version_v6_tag u v4 v6 v k) [
      | inl (f, g) ↦ cc (e, f, g)
      | inr (f, g) ↦ cc (e, f, g)
    ]

-- What the nodes of an address say of it.
pub record IsRead (lib : Libraries) (yml : Yaml lib) (a : Address) : Type 0 where
  pub ip :
      (node : Yaml lib)
      → lib.at yml address_ip_tag ≡ some node
      → (lib.as_text node ≡ some a.ip) × (a.has_domain ≡ false)
  pub domain :
      lib.at yml address_ip_tag ≡ none
      → (a.has_domain ≡ true)
        × ((node : Yaml lib) × (lib.at yml address_dns_tag ≡ some node)
            × (lib.as_text node ≡ some a.domain))
  pub port :
      (node : Yaml lib)
      → lib.at yml address_port_tag ≡ some node
      → lib.as_unsigned 16 node ≡ some a.port
  pub no_port : lib.at yml address_port_tag ≡ none → a.port ≡ default_port
  pub external_port :
      (node : Yaml lib)
      → lib.at yml address_external_port_tag ≡ some node
      → lib.as_unsigned 16 node ≡ some a.external_port
  pub no_external_port : lib.at yml address_external_port_tag ≡ none → a.external_port ≡ a.port
  pub transport :
      (node : Yaml lib)
      → lib.at yml address_transport_tag ≡ some node
      → lib.as_text node ≡ some (protocol_word a.transport_protocol)
  pub no_transport :
      lib.at yml address_transport_tag ≡ none → a.transport_protocol ≡ default_transport_protocol
  pub version :
      (node : Yaml lib)
      → lib.at yml address_ip_version_tag ≡ some node
      → lib.as_text node ≡ some (version_word a.ip_version)

fields-IsRead :
    (lib : Libraries) (yml : Yaml lib) (a : Address) (v : Option IpVersion)
    (ip domain : Option Text) (port external : ℕ) (tp : TransportProtocol)
    → get_optional lib (get_ip_version lib) yml address_ip_version_tag ≡ some v
    → get_optional lib (get_text lib) yml address_ip_tag ≡ some ip
    → get_optional lib (get_text lib) yml address_dns_tag ≡ some domain
    → get_or lib default_port (get_port lib) yml address_port_tag ≡ some port
    → get_or lib port (get_port lib) yml address_external_port_tag ≡ some external
    → get_or lib default_transport_protocol (get_transport lib) yml address_transport_tag ≡ some tp
    → build_address lib v ip domain port external tp ≡ some a
    → IsRead lib yml a
fields-IsRead lib yml a v ip domain port external tp e f g m n p q =
    let (same_port, same_external, same_tp, has_name, domain_used, has_ip, has_version) =
      build_address-names lib v ip domain port external tp a q in
    let (no_ip_node, ip_node) = get_optional-read lib (get_text lib) yml address_ip_tag ip f in
    let (no_name_node, name_node) =
      get_optional-read lib (get_text lib) yml address_dns_tag domain g in
    let (no_version, version_node) =
      get_optional-read lib (get_ip_version lib) yml address_ip_version_tag v e in
    let (no_port, port_node) =
      get_or-read lib (get_port lib) yml address_port_tag default_port port m in
    let (no_external, external_node) =
      get_or-read lib (get_port lib) yml address_external_port_tag port external n in
    let (no_tp, tp_node) =
      get_or-read lib (get_transport lib) yml address_transport_tag default_transport_protocol tp
        p in
    record {
      ip = λ node k.
          let (r, s) = ip_node node k in
          (get_text-read lib node a.ip (r ∙ has_ip s), domain_used ∙ ap not s);
      domain = λ k.
          let z = no_ip_node k in
          let named = has_name z in
          (
            domain_used ∙ ap (λ o. not (is_some o)) z,
            elim (Option-cases (lib.at yml address_dns_tag)) [
              | inl x ↦ absurd (cc (no_name_node x, named))
              | inr (node, x) ↦
                  (node, x, get_text-read lib node a.domain ((name_node node x).0 ∙ named))
            ],
          );
      port = λ node k. get_port-read lib node a.port (port_node node k ∙ ap some (sym same_port));
      no_port = λ k. same_port ∙ no_port (ap is_some k);
      external_port = λ node k.
          get_port-read lib node a.external_port
            (external_node node k ∙ ap some (sym same_external));
      no_external_port = λ k. same_external ∙ no_external (ap is_some k) ∙ sym same_port;
      transport = λ node k.
          get_transport-read lib node a.transport_protocol (tp_node node k ∙ ap some (sym same_tp));
      no_transport = λ k. same_tp ∙ no_tp (ap is_some k);
      version = λ node k.
          let (r, s) = version_node node k in
          get_ip_version-read lib node a.ip_version (r ∙ has_version s);
    }

-- If an address is read, then it has the ip that its node says, or, without one, the domain that its node
-- says, which there must be; the port, the external port, the protocol and the version that their nodes
-- say; and without these nodes the default port, the port itself, and the default protocol.
pub get_address-IsRead :
    (lib : Libraries) (yml : Yaml lib) (a : Address)
    → get_address lib yml ≡ some a
    → IsRead lib yml a
unfolding get_address
get_address-IsRead lib yml a h =
    let (v, e, i) =
      bind-eq-some (get_optional lib (get_ip_version lib) yml address_ip_version_tag) _ h in
    let (ip, f, j) = bind-eq-some (get_optional lib (get_text lib) yml address_ip_tag) _ i in
    let (domain, g, k) = bind-eq-some (get_optional lib (get_text lib) yml address_dns_tag) _ j in
    let (port, m, l) =
      bind-eq-some (get_or lib default_port (get_port lib) yml address_port_tag) _ k in
    let (external, n, o) =
      bind-eq-some (get_or lib port (get_port lib) yml address_external_port_tag) _ l in
    let (tp, p, q) =
      bind-eq-some
        (get_or lib default_transport_protocol (get_transport lib) yml address_transport_tag) _ o in
    fields-IsRead lib yml a v ip domain port external tp e f g m n p q
