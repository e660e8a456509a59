-- ===== src/Gap/Reached.antt =====
-- The states that the token can reach, and when it advertises in them.
use ubiquitous_chainsaw.Base.{
  ℕ, ◌<◌, ◌^◌, ◌≡◌, refl, sym, ap, ◌∙◌, ◌⊎◌, Bool, true, false, none, some, ◌==◌, Bool-cases, inl,
  inr, if◌then◌else◌, Outcome, ok, stop, ◌>>=◌, ok_injective, Outcome-cases, Stop,
}
use mathlib.Core.Path.{subst}
use ubiquitous_chainsaw.Gap.Host.{Host, HostWorks, AddressType, busy, completed}
use ubiquitous_chainsaw.Gap.Connection.{
  CConnection, connection_handle-ok, connection_eq, handle_eq, move_assign, drop, logged, destroy,
}
use ubiquitous_chainsaw.Gap.Event.{Event, GapEvent, connect, disconnect, gap_event_to_str}
use ubiquitous_chainsaw.Gap.Advertise.{
  CGap, begin_advertise, end_advertise, make_gap, set_up, start_advertising, check_started,
  start_code,
}
use ubiquitous_chainsaw.Gap.Callback.{
  set_connection, clear_connection, active_connection, leave, accept, refuse, on_connect, lost,
  compare_lost, on_disconnect, on_other, event_callback,
}
use ubiquitous_chainsaw.Gap.Session.{gap}

abbrev pub is_idle : CConnection → Bool
is_idle none = true
is_idle (some h) = false

module _ {S : Type 0} (host : Host S) where
  -- What the host may have done between two calls of the callback: it has stopped to advertise if a
  -- client has connected.
  abbrev pub Meanwhile : Event → S → S → Type 0
  Meanwhile connect s s' = (host.adv_active s' ≡ false) ⊎ (host.adv_active s' ≡ host.adv_active s)
  Meanwhile event s s' = host.adv_active s' ≡ host.adv_active s

  pub data Reached : CGap → S → Type 0 where
    constructed : {s : S} {self : CGap} (s₀ : S) → make_gap host s₀ ≡ ok (self, s) → Reached self s
    called :
        {self self' : CGap} {s s' : S} (s₁ : S) (event : GapEvent)
        → Reached self s
        → Meanwhile event.type s s₁
        → event.conn_handle < 2 ^ 16
        → event_callback host event self s₁ ≡ ok (self', s')
        → Reached self' s'

  abbrev pub Advertises : CGap → S → Type 0
  Advertises self s = host.adv_active s ≡ is_idle self.active_connection

  abbrev Sound : Outcome (CGap × S) → Type 0
  Sound call = (self : CGap) × (s : S) × (call ≡ ok (self, s)) × Advertises self s

  moves : {r r' : CGap × S} → r ≡ r' → Advertises r.0 r.1 → Advertises r'.0 r'.1
  moves e advertises = subst (λ r. Advertises r.0 r.1) e advertises

  not_ok : {r : CGap × S} {reason : Stop} → ◌≡◌ {A = Outcome (CGap × S)} (stop reason) (ok r) → ⊥
  not_ok e = cc

  module _ (dropping : ℕ → S → Bool) (works : HostWorks host dropping) where
    destroy_advertises :
        (c : CConnection) (s : S)
        → (s' : S) × (destroy host c s ≡ ok s') × (host.adv_active s' ≡ host.adv_active s)
    unfolding destroy drop logged
    destroy_advertises none s = (s, refl, refl)
    destroy_advertises (some h) s = tested (host.conn_find h s)
      where
        tested :
            (found : Bool)
            → (s' : S) × ((if found then drop host (some h) completed s >>= logged else ok s)
                ≡ ok s')
              × (host.adv_active s' ≡ host.adv_active s)
        tested true = (_, refl, works.terminate_adv h completed s)
        tested false = (s, refl, refl)

    leave-Sound : (c : CConnection) (r : CGap × S) → Advertises r.0 r.1 → Sound (leave host c r)
    unfolding leave
    leave-Sound c (self, s) advertises =
        let (s', e, same) = destroy_advertises c s in (self, s', rw (e), same ∙ advertises)

    stopped :
        (s : S)
        → host.adv_active (if host.adv_active s then (end_advertise host s).1 else s) ≡ false
    unfolding end_advertise
    stopped s = elim (Bool-cases (host.adv_active s)) [
      | inl e ↦ rw (e) (works.stop_works s e)
      | inr e ↦ rw (e) e
    ]

    connect-Sound :
        (t : AddressType) (c : CConnection) (h : ℕ) (s s₁ : S)
        → Advertises (gap t c) s
        → Meanwhile connect s s₁
        → h < 2 ^ 16
        → Sound (on_connect host (gap t c) h s₁)
    unfolding on_connect active_connection accept refuse set_connection move_assign drop logged
    connect-Sound t none h s s₁ advertises came small =
        rw (connection_handle-ok h small) (leave-Sound none (gap t (some h), _) (stopped s₁))
    connect-Sound t (some k) h s s₁ advertises came small = rw (connection_handle-ok h small) (
        leave-Sound (some h) (gap t (some k), _)
          (works.terminate_adv h busy s₁ ∙ elim came [ inl e ↦ e | inr e ↦ e ∙ advertises ]))

    lost-Advertises : (self : CGap) (s : S) → Advertises (lost host self s).0 (lost host self s).1
    unfolding lost clear_connection set_connection move_assign begin_advertise
    lost-Advertises self s = elim (Bool-cases (host.adv_active s)) [
      | inl e ↦ rw (e) e
      | inr e ↦ rw (e) (works.start_works self.ble_address_type s e).1
    ]

    disconnect-Sound :
        (t : AddressType) (c : CConnection) (h : ℕ) (s : S)
        → Advertises (gap t c) s
        → h < 2 ^ 16
        → Sound (on_disconnect host (gap t c) h s)
    unfolding on_disconnect active_connection compare_lost connection_eq handle_eq
    disconnect-Sound t none h s advertises small = (gap t none, s, refl, advertises)
    disconnect-Sound t (some k) h s advertises small =
        rw (connection_handle-ok h small) (elim (Bool-cases (k == h)) [
          | inl e ↦ rw (e) (
              leave-Sound (some h) (lost host (gap t (some k)) s)
                (lost-Advertises (gap t (some k)) s))
          | inr e ↦ rw (e) (leave-Sound (some h) (gap t (some k), s) advertises)
        ])

    callback-Sound :
        (event : Event) (h : ℕ) (self : CGap) (s s₁ : S)
        → Advertises self s
        → Meanwhile event s s₁
        → h < 2 ^ 16
        → Sound (event_callback host (record { type = event; conn_handle = h }) self s₁)
    unfolding event_callback on_other gap_event_to_str
    callback-Sound connect h self s s₁ advertises came small =
        connect-Sound self.ble_address_type self.active_connection h s s₁ advertises came small
    callback-Sound disconnect h self s s₁ advertises came small =
        disconnect-Sound self.ble_address_type self.active_connection h s₁ (came ∙ advertises) small
    callback-Sound event h self s s₁ advertises came small = (self, s₁, refl, came ∙ advertises)

    started :
        (self self' : CGap) (s s' : S)
        → self.active_connection ≡ none
        → start_advertising host self s ≡ ok (self', s')
        → Advertises self' s'
    unfolding start_advertising begin_advertise check_started start_code
    started self self' s s' idle e = elim (Bool-cases (host.adv_active s)) [
      | inl active ↦ absurd (not_ok (rw (active, start_advertising) at e))
      | inr off ↦
          let (code, active) = works.start_works self.ble_address_type s off in
          moves (ok_injective (rw (off, code, start_advertising, begin_advertise) at e))
            (active ∙ sym (ap is_idle idle))
    ]

    constructed-Advertises :
        (self : CGap) (s₀ s : S) → make_gap host s₀ ≡ ok (self, s) → Advertises self s
    unfolding make_gap
    constructed-Advertises self s₀ s e = elim (Outcome-cases (set_up host s₀)) [
      | inl ((t, s'), set) ↦ started (gap t none) self s' s refl (rw (set, make_gap) at e)
      | inr (reason, set) ↦ absurd (not_ok (rw (set, make_gap) at e))
    ]

    -- On a host that works, the token advertises in every state that it reaches where it serves no
    -- client, and in no other.
    pub Advertises-iff_idle : (self : CGap) (s : S) → Reached self s → Advertises self s
    Advertises-iff_idle self s (constructed s₀ e) = constructed-Advertises self s₀ s e
    Advertises-iff_idle self' s' (called {self} {s = s} s₁ event reached came small e) =
        let (self'', s'', e', advertises) =
          callback-Sound event.type event.conn_handle self s s₁ (Advertises-iff_idle self s reached)
            came small in
        moves (ok_injective (sym e' ∙ e)) advertises
