-- ===== src/Gap/Dropped.antt =====
-- What the token drops, and what it says of a link that it cannot drop.
use ubiquitous_chainsaw.Base.{
  ℕ, ◌<◌, ◌^◌, ◌≡◌, refl, ◌∙◌, ◌⊎◌, Bool, true, false, none, some, ◌==◌, Bool-cases, inl, inr,
  if◌then◌else◌, ok,
}
use ubiquitous_chainsaw.Nimble.{NimbleErrorCode, success, no_connection}
use ubiquitous_chainsaw.Gap.Host.{Host, HostWorks, DropCode, AddressType, busy, completed}
use ubiquitous_chainsaw.Gap.Connection.{
  CConnection, connection_handle-ok, drop_code, drop, logged, destroy,
}
use ubiquitous_chainsaw.Gap.Event.{connect}
use ubiquitous_chainsaw.Gap.Callback.{active_connection, leave, refuse, on_connect, event_callback}
use ubiquitous_chainsaw.Gap.Session.{gap}

drop_code-cases :
    (code : NimbleErrorCode) → (drop_code code ≡ none) ⊎ (drop_code code ≡ some no_connection)
unfolding drop_code
drop_code-cases success = inl refl
drop_code-cases no_connection = inr refl
drop_code-cases code = inr refl

module _ {S : Type 0} (host : Host S) where
  -- A drop that returns an error returns `noConnection`, whatever the host's own code was.
  pub drop-no_connection :
      (c : CConnection) (reason : DropCode) (s s' : S) (code : NimbleErrorCode)
      → drop host c reason s ≡ ok (some code, s')
      → code ≡ no_connection
  unfolding drop
  drop-no_connection none reason s s' code e = absurd cc
  drop-no_connection (some h) reason s s' code e =
      elim (drop_code-cases (host.terminate h reason s).0) [ inl n ↦ absurd cc | inr n ↦ cc ]

  module _ (dropping : ℕ → S → Bool) (works : HostWorks host dropping) where
    -- The handle is among those that are to go, and no other has joined them.
    abbrev pub Drops : ℕ → S → S → Type 0
    Drops h s s' = (k : ℕ) → dropping k s' ≡ (if k == h then true else dropping k s)

    Drops-again : (h : ℕ) (s s' s'' : S) → Drops h s s' → Drops h s' s'' → Drops h s s''
    Drops-again h s s' s'' first second k = twice _ _ _ (k == h) (first k) (second k)
      where
        twice :
            (x y z b : Bool)
            → y ≡ (if b then true else x)
            → z ≡ (if b then true else y)
            → z ≡ (if b then true else x)
        twice x y z true e e' = e'
        twice x y z false e e' = e' ∙ e

    destroy_dropped :
        (h : ℕ) (s s' : S)
        → Drops h s s'
        → (s'' : S) × (destroy host (some h) s' ≡ ok s'') × Drops h s s''
    unfolding destroy drop logged
    destroy_dropped h s s' drops = elim (Bool-cases (host.conn_find h s')) [
      | inl e ↦ (
        (host.terminate h completed s').1,
        rw (e),
        Drops-again h s s' _ drops (λ k. works.terminate_found h completed s' k e),
      )
      | inr e ↦ (s', rw (e), drops)
    ]

    -- While a client is served, another one that connects is dropped, and no other link is: on a
    -- host that works and still has the new link.
    pub second_client_is_dropped :
        (t : AddressType) (served h : ℕ) (s : S)
        → h < 2 ^ 16
        → host.conn_find h s ≡ true
        → (s' : S) × (event_callback host
              (record { type = connect; conn_handle = h })
              (gap t (some served))
              s
            ≡ ok (gap t (some served), s'))
          × Drops h s s'
    unfolding event_callback on_connect active_connection refuse leave drop logged
    second_client_is_dropped t served h s small found =
        let (s', e, drops) =
          destroy_dropped h s (host.terminate h busy s).1
            (λ k. works.terminate_found h busy s k found) in
        (s', rw (connection_handle-ok h small, e), drops)
