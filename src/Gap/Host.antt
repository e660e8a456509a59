-- ===== src/Gap/Host.antt =====
-- The NimBLE host is not part of the repository: `Host` holds the calls that CConnection.cpp and
-- CGap.cpp make of it. `DropCode` is that of CConnection.hpp.
use ubiquitous_chainsaw.Base.{ℕ, ◌≡◌, Bool, true, false, ◌==◌, if◌then◌else◌, List}
use ubiquitous_chainsaw.Base.Int.{ℤ}
use ubiquitous_chainsaw.Nimble.{NimbleErrorCode, success}

pub data DropCode : Type 0 where
  completed time_out busy resource_exhaustion unexpected_callback_behavior unexpected_error :
      DropCode

-- The enumeration over `uint8_t`: `unnamed` is a value that it does not name.
pub data AddressType : Type 0 where
  public_mac random_mac invalid : AddressType
  unnamed : ℕ → AddressType

-- What the source sets of `ble_hs_adv_fields`; the rest is zero.
pub record AdvFields : Type 0 where
  pub flags : ℕ
  pub name : List ℕ
  pub name_len : ℕ
  pub name_is_complete : ℕ
  pub tx_pwr_lvl : ℤ
  pub tx_pwr_lvl_is_present : ℕ

-- Each call with the state of the host before and after it.
pub record Host (S : Type 0) : Type 0 where
  pub conn_find : ℕ → S → Bool
  pub terminate : ℕ → DropCode → S → NimbleErrorCode × S
  pub adv_start : AddressType → S → NimbleErrorCode × S
  pub adv_stop : S → NimbleErrorCode × S
  pub adv_active : S → Bool
  pub adv_set_fields : AdvFields → S → NimbleErrorCode × S
  pub name_set : List ℕ → S → NimbleErrorCode × S
  pub ensure_addr : S → NimbleErrorCode × S
  pub infer_auto : S → NimbleErrorCode × AddressType
  pub copy_addr : AddressType → S → NimbleErrorCode
  pub flag_disc_gen_no_bredr : ℕ
  pub tx_pwr_lvl_auto : ℤ

-- A host whose advertising can be started and stopped, and which drops a link that it has when asked
-- to: `dropping` are the links that it has been asked to drop.
pub record HostWorks {S : Type 0} (host : Host S) (dropping : ℕ → S → Bool) : Type 0 where
  pub start_works :
      (t : AddressType) (s : S)
      → host.adv_active s ≡ false
      → ((host.adv_start t s).0 ≡ success) × (host.adv_active (host.adv_start t s).1 ≡ true)
  pub stop_works : (s : S) → host.adv_active s ≡ true → host.adv_active (host.adv_stop s).1 ≡ false
  pub terminate_found :
      (h : ℕ) (reason : DropCode) (s : S) (k : ℕ)
      → host.conn_find h s ≡ true
      → dropping k (host.terminate h reason s).1 ≡ (if k == h then true else dropping k s)
  pub terminate_adv :
      (h : ℕ) (reason : DropCode) (s : S)
      → host.adv_active (host.terminate h reason s).1 ≡ host.adv_active s
