-- ===== src/Server/Held.antt =====
-- The device that the client holds is one that it has verified.
use ubiquitous_chainsaw.Base.{
  ℕ, ◌≡◌, refl, sym, ap, ◌∙◌, true, false, List, [], ◌∷◌, ◌++◌, map, Option, none, some, Outcome,
  ok, stop, Stop, ok_injective, Outcome-cases, Option-cases, Bool-cases, inl, inr,
}
use mathlib.Core.Path.{subst}
use ubiquitous_chainsaw.Security.{Crypto}
use ubiquitous_chainsaw.Gatt.{Device}
use ubiquitous_chainsaw.Scanner.Info.{DeviceInfo}
use ubiquitous_chainsaw.Characteristic.Status.{disconnected}
use ubiquitous_chainsaw.WhoAmI.Client.{Reads, verify_server_address}
use ubiquitous_chainsaw.WhoAmI.Checks.{Vouched}
use ubiquitous_chainsaw.Server.State.{
  AuthenticatedDevice, CServer, make_server, grant_authentication, revoke_authentication,
  is_authenticated, reload_public_key, connection_changed,
}
use ubiquitous_chainsaw.Server.Processed.{enqueue_devices-all}
use ubiquitous_chainsaw.Server.Verified.{verified_key}
use ubiquitous_chainsaw.Server.Coroutines.{
  Stage, fired, made, verified, granting, finished, make_device_of, resume, Client, Step, enqueued,
  resumed, lost, reloaded, Steps, here, step,
}

module _ (c : Crypto) (Loaded : List ℕ → Type 0) where
  -- Someone who holds the private key to a key that was loaded has signed the device's address.
  abbrev pub Known : DeviceInfo → Type 0
  Known info =
      (key : List ℕ) × (address : ℕ) × (info.address ≡ some address)
      × Loaded key
      × Vouched c key address

  abbrev StageOf : Stage → Type 0
  StageOf (fired info) = Unit {0}
  StageOf (made info address device) = info.address ≡ some address
  StageOf (verified info device) = Known info
  StageOf (granting info device) = Known info
  StageOf finished = Unit {0}

  abbrev Stages : List Stage → Type 0
  Stages [] = Unit {0}
  Stages (stage ∷ stages) = StageOf stage × Stages stages

  -- What the client has: a loaded key, and a known device.
  abbrev pub Has : CServer Reads → Type 0
  Has self =
      ((key : List ℕ) → self.server_key ≡ some key → Loaded key)
      × (elim self.server [ none ↦ Unit {0} | some held ↦ Known held.info ])

  Stages-append : (xs ys : List Stage) → Stages xs → Stages ys → Stages (xs ++ ys)
  Stages-append [] ys a b = b
  Stages-append (x ∷ xs) ys (a, rest) b = (a, Stages-append xs ys rest b)

  Stages-replace :
      (xs ys : List Stage) (x y : Stage)
      → (StageOf x → StageOf y)
      → Stages (xs ++ (x ∷ ys))
      → Stages (xs ++ (y ∷ ys))
  Stages-replace [] ys x y f (a, rest) = (f a, rest)
  Stages-replace (z ∷ xs) ys x y f (a, rest) = (a, Stages-replace xs ys x y f rest)

  Stages-at : (xs ys : List Stage) (x : Stage) → Stages (xs ++ (x ∷ ys)) → StageOf x
  Stages-at [] ys x (a, rest) = a
  Stages-at (z ∷ xs) ys x (a, rest) = Stages-at xs ys x rest

  Stages-fired : (infos : List DeviceInfo) → Stages (map fired infos)
  Stages-fired [] = tt
  Stages-fired (info ∷ infos) = (tt, Stages-fired infos)

  made-StageOf :
      (connection : Option (Device Reads)) (info : DeviceInfo)
      → StageOf (make_device_of connection info)
  unfolding make_device_of
  made-StageOf connection info = elim (Option-cases info.address) [
    | inl e ↦ rw (e) tt
    | inr (address, e) ↦ elim (Option-cases connection) [
      | inl n ↦ rw (e, n) tt
      | inr (device, d) ↦ rw (e, d) refl
    ]
  ]

  lost-Has : (self : CServer Reads) → Has self → Has (connection_changed disconnected self)
  unfolding connection_changed revoke_authentication
  lost-Has self has = (has.0, tt)

  reloaded-Has :
      (self : CServer Reads) (loaded : Option (List ℕ))
      → ((key : List ℕ) → loaded ≡ some key → Loaded key)
      → Has self
      → Has (reload_public_key loaded self).1
  unfolding reload_public_key
  reloaded-Has self none all has = (all, has.1)
  reloaded-Has self (some key) all has = (all, has.1)

  not_ok :
      {r : Stage × CServer Reads} {reason : Stop}
      → ◌≡◌ {A = Outcome (Stage × CServer Reads)} (stop reason) (ok r)
      → ⊥
  not_ok e = cc

  resume-StageOf :
      (connection : Option (Device Reads)) (stage stage' : Stage) (self self' : CServer Reads)
      → Has self
      → StageOf stage
      → resume c connection stage self ≡ ok (stage', self')
      → StageOf stage' × Has self'
  unfolding resume is_authenticated grant_authentication
  resume-StageOf connection (fired info) stage' self self' has known e =
      let same = ok_injective e in
      (
        subst StageOf (ap (λ r. r.0) same) (made-StageOf connection info),
        subst Has (ap (λ r. r.1) same) has,
      )
  resume-StageOf connection (made info address device) stage' self self' has known e =
      elim (Outcome-cases (verify_server_address c self.server_key device address)) [
        | inl (true, v) ↦
            let same = ok_injective (rw (v, resume) at e) in
            let (key, loaded, vouched) = verified_key c self.server_key device address v in
            (
              subst StageOf (ap (λ r. r.0) same) (key, address, known, has.0 key loaded, vouched),
              subst Has (ap (λ r. r.1) same) has,
            )
        | inl (false, v) ↦
            let same = ok_injective (rw (v, resume) at e) in
            (subst StageOf (ap (λ r. r.0) same) tt, subst Has (ap (λ r. r.1) same) has)
        | inr (reason, v) ↦ absurd (not_ok (rw (v, resume) at e))
      ]
  resume-StageOf connection (verified info device) stage' self self' has known e =
      elim (Bool-cases (is_authenticated self)) [
        | inl a ↦
            let same = ok_injective (rw (a, resume) at e) in
            (subst StageOf (ap (λ r. r.0) same) tt, subst Has (ap (λ r. r.1) same) has)
        | inr a ↦
            let same = ok_injective (rw (a, resume) at e) in
            (subst StageOf (ap (λ r. r.0) same) known, subst Has (ap (λ r. r.1) same) has)
      ]
  resume-StageOf connection (granting info device) stage' self self' has known e =
      let same = ok_injective e in
      (subst StageOf (ap (λ r. r.0) same) tt, subst Has (ap (λ r. r.1) same) (has.0, known))
  resume-StageOf connection finished stage' self self' has known e =
      let same = ok_injective e in
      (subst StageOf (ap (λ r. r.0) same) tt, subst Has (ap (λ r. r.1) same) has)

  abbrev Sound : Client → Type 0
  Sound client = Has client.self × Stages client.coroutines

  Step-Sound :
      (client client' : Client) → Step c Loaded client client' → Sound client → Sound client'
  Step-Sound _ _ (enqueued {self} {self'} {coroutines} infos started e) (has, stages) = (
    subst Has (ap (λ r. r.1) (ok_injective (sym (enqueue_devices-all infos self) ∙ e))) has,
    Stages-append coroutines (map fired started) stages (Stages-fired started),
  )
  Step-Sound _ _ (resumed {self} {self'} connection before after stage stage' e) (has, stages) =
      let (known, has') =
        resume-StageOf connection stage stage' self self' has (Stages-at before after stage stages)
          e in
      (has', Stages-replace before after stage stage' (λ old. known) stages)
  Step-Sound _ _ (lost {self}) (has, stages) = (lost-Has self has, stages)
  Step-Sound _ _ (reloaded {self} loaded all) (has, stages) =
      (reloaded-Has self loaded all has, stages)

  Steps-Sound : (start client : Client) → Steps c Loaded start client → Sound start → Sound client
  Steps-Sound start _ here sound = sound
  Steps-Sound start _ (step {client} {client'} steps last) sound =
      Step-Sound client client' last (Steps-Sound start client steps sound)

  -- Whenever the client holds a device, someone who holds the private key to a key that the client
  -- had loaded has signed that device's address: from the start of the client on, whatever devices
  -- are found, lost and made, however the coroutines interleave and whenever the key is loaded anew.
  pub held_is_Known :
      (loaded : Option (List ℕ)) (client : Client) (held : AuthenticatedDevice Reads)
      → ((key : List ℕ) → loaded ≡ some key → Loaded key)
      → Steps c Loaded (record { self = make_server loaded; coroutines = [] }) client
      → client.self.server ≡ some held
      → Known held.info
  unfolding make_server
  held_is_Known loaded client held all steps e =
      rw (e) at (Steps-Sound _ client steps ((all, tt), tt)).0.1
