-- ===== src/PacketTypes.antt =====
-- src/BLEPacket/PacketTypes.h: the numbers of the wire format that the code uses.
use ble_smoke_detector.Common.{ℕ}

abbrev pub type_unknown : ℕ
type_unknown = 0

abbrev pub type_announce : ℕ
type_announce = 0x01

abbrev pub type_message : ℕ
type_message = 0x02

abbrev pub type_micro_mesh_preferences : ℕ
type_micro_mesh_preferences = 0x7d

abbrev pub packet_flag_has_recipient : ℕ
packet_flag_has_recipient = 1

abbrev pub packet_flag_has_signature : ℕ
packet_flag_has_signature = 2

abbrev pub packet_flag_has_route : ℕ
packet_flag_has_route = 8

abbrev pub packet_flag_from_meshtastic : ℕ
packet_flag_from_meshtastic = 128

abbrev pub tlv_announce_nickname : ℕ
tlv_announce_nickname = 0x01

abbrev pub tlv_announce_noise_public_key : ℕ
tlv_announce_noise_public_key = 0x02

abbrev pub tlv_announce_signing_public_key : ℕ
tlv_announce_signing_public_key = 0x03

abbrev pub tlv_announce_direct_neighbors : ℕ
tlv_announce_direct_neighbors = 0x04

abbrev pub tlv_announce_location_latitude : ℕ
tlv_announce_location_latitude = 0x7d

abbrev pub tlv_announce_location_longitude : ℕ
tlv_announce_location_longitude = 0x7e

abbrev pub tlv_announce_location_altitude : ℕ
tlv_announce_location_altitude = 0x7f

abbrev pub tlv_message_id : ℕ
tlv_message_id = 0x00

abbrev pub tlv_message_content : ℕ
tlv_message_content = 0x01

abbrev pub tlv_message_location_latitude : ℕ
tlv_message_location_latitude = 0x78

abbrev pub tlv_message_location_longitude : ℕ
tlv_message_location_longitude = 0x79

abbrev pub tlv_message_location_altitude : ℕ
tlv_message_location_altitude = 0x7a

abbrev pub tlv_message_flags : ℕ
tlv_message_flags = 0x7b

abbrev pub tlv_message_reply_to_id : ℕ
tlv_message_reply_to_id = 0x7c

abbrev pub tlv_message_sender_nickname : ℕ
tlv_message_sender_nickname = 0x7d

abbrev pub tlv_message_channel_content : ℕ
tlv_message_channel_content = 0x7e

abbrev pub tlv_message_channel : ℕ
tlv_message_channel = 0x7f

abbrev pub message_flag_emoji : ℕ
message_flag_emoji = 128

abbrev pub tlv_micro_mesh_preferences_key : ℕ
tlv_micro_mesh_preferences_key = 0x01

abbrev pub tlv_micro_mesh_preferences_ssid : ℕ
tlv_micro_mesh_preferences_ssid = 0x02

abbrev pub tlv_micro_mesh_preferences_password : ℕ
tlv_micro_mesh_preferences_password = 0x03

abbrev pub tlv_micro_mesh_preferences_latitude : ℕ
tlv_micro_mesh_preferences_latitude = 0x04

abbrev pub tlv_micro_mesh_preferences_longitude : ℕ
tlv_micro_mesh_preferences_longitude = 0x05

abbrev pub tlv_micro_mesh_preferences_altitude : ℕ
tlv_micro_mesh_preferences_altitude = 0x06
