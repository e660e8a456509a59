-- ===== src/Server/Coroutines.antt =====
-- The coroutines of `process_queue`, client/src/CServer.cpp, and how they interleave. A coroutine can
-- be interrupted where it awaits and between two calls that lock the mutex.
use ubiquitous_chainsaw.Base.{
  ℕ, ◌≡◌, List, ◌∷◌, ◌++◌, map, Option, none, some, if◌then◌else◌, Outcome, ok, ◌>>=◌,
}
use ubiquitous_chainsaw.Security.{Crypto}
use ubiquitous_chainsaw.Gatt.{Device}
use ubiquitous_chainsaw.Characteristic.Status.{disconnected}
use ubiquitous_chainsaw.Scanner.Info.{DeviceInfo}
use ubiquitous_chainsaw.WhoAmI.Client.{Reads, verify_server_address}
use ubiquitous_chainsaw.Server.State.{
  CServer, grant_authentication, is_authenticated, reload_public_key, connection_changed,
  enqueue_devices,
}

-- Where a coroutine is: it has the info of a device; it has made the device; it has verified it; it
-- has seen that none is held; it has returned.
pub data Stage : Type 0 where
  fired : DeviceInfo → Stage
  made : DeviceInfo → ℕ → Device Reads → Stage
  verified : DeviceInfo → Device Reads → Stage
  granting : DeviceInfo → Device Reads → Stage
  finished : Stage

-- `connection` is what `make_device` gives for the address.
unfoldable pub make_device_of : Option (Device Reads) → DeviceInfo → Stage
make_device_of connection info = elim info.address [
  | none ↦ finished
  | some address ↦ elim connection [ none ↦ finished | some device ↦ made info address device ]
]

-- A coroutine runs to where it can be interrupted next.
unfoldable pub resume :
    Crypto → Option (Device Reads) → Stage → CServer Reads → Outcome (Stage × CServer Reads)
resume c connection (fired info) self = ok (make_device_of connection info, self)
resume c connection (made info address device) self =
    verify_server_address c self.server_key device address
    >>= (λ accepted. ok (if accepted then verified info device else finished, self))
resume c connection (verified info device) self =
    ok (if is_authenticated self then finished else granting info device, self)
resume c connection (granting info device) self =
    ok (finished, grant_authentication (record { device = device; info = info }) self)
resume c connection finished self = ok (finished, self)

pub record Client : Type 0 where
  pub self : CServer Reads
  pub coroutines : List Stage

-- Devices are found, a coroutine is resumed, a device is lost, or the key is loaded anew; `Loaded`
-- holds of the keys that are loaded.
pub data Step (c : Crypto) (Loaded : List ℕ → Type 0) : Client → Client → Type 0 where
  enqueued :
      {self self' : CServer Reads} {coroutines : List Stage} (infos started : List DeviceInfo)
      → enqueue_devices infos self ≡ ok (started, self')
      → Step c Loaded
          (record { self = self; coroutines = coroutines })
          (record { self = self'; coroutines = coroutines ++ map fired started })
  resumed :
      {self self' : CServer Reads} (connection : Option (Device Reads)) (before after : List Stage)
      (stage stage' : Stage)
      → resume c connection stage self ≡ ok (stage', self')
      → Step c Loaded
          (record { self = self; coroutines = before ++ (stage ∷ after) })
          (record { self = self'; coroutines = before ++ (stage' ∷ after) })
  lost :
      {self : CServer Reads} {coroutines : List Stage}
      → Step c Loaded
          (record { self = self; coroutines = coroutines })
          (record { self = connection_changed disconnected self; coroutines = coroutines })
  reloaded :
      {self : CServer Reads} {coroutines : List Stage} (loaded : Option (List ℕ))
      → ((key : List ℕ) → loaded ≡ some key → Loaded key)
      → Step c Loaded
          (record { self = self; coroutines = coroutines })
          (record { self = (reload_public_key loaded self).1; coroutines = coroutines })

pub data Steps (c : Crypto) (Loaded : List ℕ → Type 0) (start : Client) : Client → Type 0 where
  here : Steps c Loaded start start
  step :
      {client client' : Client}
      → Steps c Loaded start client
      → Step c Loaded client client'
      → Steps c Loaded start client'
