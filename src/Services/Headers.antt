-- ===== src/Services/Headers.antt =====
-- The headers of the three packets. Each field holds the index at which its byte stands.
use ubiquitous_chainsaw.Base.{ℕ}

pub record AuthenticateHeader : Type 0 where
  pub sha_version : ℕ
  pub hash_offset : ℕ
  pub hash_size : ℕ
  pub signature_offset : ℕ
  pub signature_size : ℕ

abbrev pub header_whoami_authenticate : AuthenticateHeader
header_whoami_authenticate = record {
  sha_version = 0;
  hash_offset = 1;
  hash_size = 2;
  signature_offset = 3;
  signature_size = 4;
}

pub record DemandRssiHeader : Type 0 where
  pub random_data_offset : ℕ
  pub random_data_size : ℕ
  pub sha_version : ℕ
  pub hash_offset : ℕ
  pub hash_size : ℕ
  pub signature_offset : ℕ
  pub signature_size : ℕ

abbrev pub header_whereami_demand_rssi : DemandRssiHeader
header_whereami_demand_rssi = record {
  random_data_offset = 0;
  random_data_size = 1;
  sha_version = 2;
  hash_offset = 3;
  hash_size = 4;
  signature_offset = 5;
  signature_size = 6;
}

pub record RssiNotificationHeader : Type 0 where
  pub random_data_offset : ℕ
  pub random_data_size : ℕ
  pub rssi_offset : ℕ
  pub rssi_size : ℕ
  pub sha_version : ℕ
  pub hash_offset : ℕ
  pub hash_size : ℕ
  pub signature_offset : ℕ
  pub signature_size : ℕ

abbrev pub header_whereami_rssi_notification : RssiNotificationHeader
header_whereami_rssi_notification = record {
  random_data_offset = 0;
  random_data_size = 1;
  rssi_offset = 2;
  rssi_size = 3;
  sha_version = 4;
  hash_offset = 5;
  hash_size = 6;
  signature_offset = 7;
  signature_size = 8;
}

-- `sizeof` of the three structs: their members are bytes.
abbrev pub sizeof_authenticate_header : ℕ
sizeof_authenticate_header = 5

abbrev pub sizeof_demand_rssi_header : ℕ
sizeof_demand_rssi_header = 7

abbrev pub sizeof_rssi_notification_header : ℕ
sizeof_rssi_notification_header = 9
