-- ===== src/Yaml/Tags.antt =====
-- ddsrouter_yaml/src/cpp/yaml_configuration_tags.cpp and yaml_configuration_tags.hpp: the key words of
-- a configuration.
use dds_router.Base.{Bool, List, [], ◌∷◌, Text, codes, text_eq, any}

abbrev pub version_tag : Text
version_tag = codes "version"

abbrev pub version_tag_v_1_0 : Text
version_tag_v_1_0 = codes "v1.0"

abbrev pub version_tag_v_2_0 : Text
version_tag_v_2_0 = codes "v2.0"

abbrev pub version_tag_v_3_0 : Text
version_tag_v_3_0 = codes "v3.0"

abbrev pub allowlist_tag : Text
allowlist_tag = codes "allowlist"

abbrev pub blocklist_tag : Text
blocklist_tag = codes "blocklist"

abbrev pub builtin_tag : Text
builtin_tag = codes "builtin-topics"

abbrev pub topic_name_tag : Text
topic_name_tag = codes "name"

abbrev pub topic_type_name_tag : Text
topic_type_name_tag = codes "type"

abbrev pub topic_kind_tag : Text
topic_kind_tag = codes "keyed"

abbrev pub topic_qos_tag : Text
topic_qos_tag = codes "qos"

abbrev pub qos_reliable_tag : Text
qos_reliable_tag = codes "reliability"

abbrev pub qos_transient_tag : Text
qos_transient_tag = codes "durability"

abbrev pub qos_history_depth_tag : Text
qos_history_depth_tag = codes "depth"

abbrev pub qos_partition_tag : Text
qos_partition_tag = codes "partitions"

abbrev pub qos_ownership_tag : Text
qos_ownership_tag = codes "ownership"

abbrev pub participant_kind_tag : Text
participant_kind_tag = codes "kind"

abbrev pub participant_name_tag : Text
participant_name_tag = codes "name"

abbrev pub collection_participants_tag : Text
collection_participants_tag = codes "participants"

abbrev pub is_repeater_tag : Text
is_repeater_tag = codes "repeater"

abbrev pub echo_data_tag : Text
echo_data_tag = codes "data"

abbrev pub echo_discovery_tag : Text
echo_discovery_tag = codes "discovery"

abbrev pub echo_verbose_tag : Text
echo_verbose_tag = codes "verbose"

abbrev pub domain_id_tag : Text
domain_id_tag = codes "domain"

abbrev pub discovery_server_guid_prefix_tag : Text
discovery_server_guid_prefix_tag = codes "discovery-server-guid"

abbrev pub listening_addresses_tag : Text
listening_addresses_tag = codes "listening-addresses"

abbrev pub connection_addresses_tag : Text
connection_addresses_tag = codes "connection-addresses"

abbrev pub collection_addresses_tag : Text
collection_addresses_tag = codes "addresses"

abbrev pub tls_tag : Text
tls_tag = codes "tls"

abbrev pub tls_ca_tag : Text
tls_ca_tag = codes "ca"

abbrev pub tls_password_tag : Text
tls_password_tag = codes "password"

abbrev pub tls_private_key_tag : Text
tls_private_key_tag = codes "private_key"

abbrev pub tls_cert_tag : Text
tls_cert_tag = codes "cert"

abbrev pub tls_dhparams_tag : Text
tls_dhparams_tag = codes "dh_params"

abbrev pub tls_peer_verification_tag : Text
tls_peer_verification_tag = codes "peer_verification"

abbrev pub tls_sni_host_tag : Text
tls_sni_host_tag = codes "sni_host"

abbrev pub address_ip_tag : Text
address_ip_tag = codes "ip"

abbrev pub address_dns_tag : Text
address_dns_tag = codes "domain"

abbrev pub address_port_tag : Text
address_port_tag = codes "port"

abbrev pub address_external_port_tag : Text
address_external_port_tag = codes "external-port"

abbrev pub address_ip_version_tag : Text
address_ip_version_tag = codes "ip-version"

abbrev pub address_ip_version_v4_tag : Text
address_ip_version_v4_tag = codes "v4"

abbrev pub address_ip_version_v6_tag : Text
address_ip_version_v6_tag = codes "v6"

abbrev pub address_transport_tag : Text
address_transport_tag = codes "transport"

abbrev pub address_transport_udp_tag : Text
address_transport_udp_tag = codes "udp"

abbrev pub address_transport_tcp_tag : Text
address_transport_tcp_tag = codes "tcp"

abbrev pub discovery_server_guid_tag : Text
discovery_server_guid_tag = codes "guid"

abbrev pub discovery_server_id_tag : Text
discovery_server_id_tag = codes "id"

abbrev pub discovery_server_id_ros_tag : Text
discovery_server_id_ros_tag = codes "ros-discovery-server"

abbrev pub specs_tag : Text
specs_tag = codes "specs"

abbrev pub number_threads_tag : Text
number_threads_tag = codes "threads"

abbrev pub max_history_depth_tag : Text
max_history_depth_tag = codes "max-depth"

abbrev pub participant_kind_tag_v1 : Text
participant_kind_tag_v1 = codes "type"

abbrev pub ddsrouter_tags : List Text
ddsrouter_tags =
    allowlist_tag ∷ blocklist_tag ∷ topic_name_tag ∷ topic_type_name_tag ∷ topic_kind_tag
    ∷ participant_kind_tag ∷ participant_name_tag ∷ collection_participants_tag ∷ domain_id_tag
    ∷ discovery_server_guid_prefix_tag ∷ listening_addresses_tag ∷ connection_addresses_tag
    ∷ collection_addresses_tag ∷ tls_tag ∷ tls_ca_tag ∷ tls_password_tag ∷ tls_private_key_tag
    ∷ tls_cert_tag ∷ tls_dhparams_tag ∷ tls_sni_host_tag ∷ address_ip_tag ∷ address_dns_tag
    ∷ address_port_tag ∷ address_ip_version_tag ∷ address_ip_version_v4_tag
    ∷ address_ip_version_v6_tag ∷ address_transport_tag ∷ address_transport_udp_tag
    ∷ address_transport_tcp_tag ∷ discovery_server_guid_tag ∷ discovery_server_id_tag
    ∷ discovery_server_id_ros_tag ∷ version_tag ∷ version_tag_v_1_0 ∷ version_tag_v_2_0
    ∷ version_tag_v_3_0 ∷ participant_kind_tag_v1 ∷ []

unfoldable pub is_tag : Text → Bool
unfolding text_eq
is_tag str = any (text_eq str) ddsrouter_tags
