-- ===== src/Server/Raced.antt =====
-- Two coroutines that run at once.
use ubiquitous_chainsaw.Base.{ℕ, ◌≡◌, refl, List, [], ◌∷◌, Option, none, some}
use ubiquitous_chainsaw.Security.{Crypto}
use ubiquitous_chainsaw.Scanner.Info.{DeviceInfo}
use ubiquitous_chainsaw.WhoAmI.Client.{Reads}
use ubiquitous_chainsaw.Server.State.{AuthenticatedDevice, is_authenticated, grant_authentication}
use ubiquitous_chainsaw.Server.Coroutines.{
  verified, granting, finished, resume, Client, resumed, Steps, here, step,
}

-- The test for a device that is held and the grant are two turns: with none held and two devices
-- verified, the first is granted and the second then takes its place.
pub second_replaces_first :
    (c : Crypto) (Loaded : List ℕ → Type 0) (first second : AuthenticatedDevice Reads)
    (key : Option (List ℕ)) (devices : List DeviceInfo)
    → (mid last : Client) × Steps c Loaded
        (record {
          self = record { server = none; server_key = key; devices = devices };
          coroutines = verified first.info first.device ∷ verified second.info second.device ∷ [];
        })
        mid
      × (mid.self.server ≡ some first)
      × Steps c Loaded mid last
      × (last.self.server ≡ some second)
unfolding resume is_authenticated grant_authentication
second_replaces_first c Loaded first second key devices = (
  record {
    self = record { server = some first; server_key = key; devices = devices };
    coroutines = finished ∷ granting second.info second.device ∷ [];
  },
  record {
    self = record { server = some second; server_key = key; devices = devices };
    coroutines = finished ∷ finished ∷ [];
  },
  step
      (step (step here (resumed none [] (verified second.info second.device ∷ []) _ _ refl))
        (resumed none (granting first.info first.device ∷ []) [] _ _ refl))
      (resumed none [] (granting second.info second.device ∷ []) _ _ refl),
  refl,
  step here (resumed none (finished ∷ []) [] _ _ refl),
  refl,
)
