-- ===== src/SerialPort/Leaks.antt =====
-- What `CSerialCommunication::make` leaves open.
use ubiquitous_chainsaw.Base.{
  ℕ, suc, ◌≡◌, sym, ap, ◌∙◌, List, none, some, ok, Bool-cases, Option-cases, inl, inr, ok_injective,
}
use ubiquitous_chainsaw.SerialPort.Search.{com_port}
use ubiquitous_chainsaw.SerialPort.Open.{
  Win32, ErrorSerialCom, failed, set_serial_settings, set_serial_timeouts, open_port, make_serial,
}

-- The number of open handles: CreateFile opens the one that it gives, the calls that set up a port
-- open and close none.
pub record CountsHandles {S : Type 0} (win : Win32 S) (open_handles : S → ℕ) : Type 0 where
  pub create_some :
      (port : List ℕ) (s : S) (h : ℕ)
      → (win.create_file port s).0 ≡ some h
      → open_handles (win.create_file port s).1 ≡ suc (open_handles s)
  pub create_none :
      (port : List ℕ) (s : S)
      → (win.create_file port s).0 ≡ none
      → open_handles (win.create_file port s).1 ≡ open_handles s
  pub get_state : (h : ℕ) (s : S) → open_handles (win.get_comm_state h s).1 ≡ open_handles s
  pub set_state : (h : ℕ) (s : S) → open_handles (win.set_comm_state h s).1 ≡ open_handles s
  pub set_timeouts : (h : ℕ) (s : S) → open_handles (win.set_comm_timeouts h s).1 ≡ open_handles s

module _ {S : Type 0} (win : Win32 S) (open_handles : S → ℕ)
    (counts : CountsHandles win open_handles) where
  settings-open_handles :
      (h : ℕ) (s : S) → open_handles (set_serial_settings win h s).1 ≡ open_handles s
  unfolding set_serial_settings
  settings-open_handles h s = elim (Bool-cases (win.get_comm_state h s).0) [
    | inr e ↦ rw (e, set_serial_settings) (counts.get_state h s)
    | inl e ↦ elim (Bool-cases (win.set_comm_state h (win.get_comm_state h s).1).0) [
      | inl f ↦ rw (e, f, set_serial_settings) (counts.set_state h _ ∙ counts.get_state h s)
      | inr f ↦ rw (e, f, set_serial_settings) (counts.set_state h _ ∙ counts.get_state h s)
    ]
  ]

  timeouts-open_handles :
      (h : ℕ) (s : S) → open_handles (set_serial_timeouts win h s).1 ≡ open_handles s
  unfolding set_serial_timeouts
  timeouts-open_handles h s = elim (Bool-cases (win.set_comm_timeouts h s).0) [
    | inl e ↦ rw (e, set_serial_timeouts) (counts.set_timeouts h s)
    | inr e ↦ rw (e, set_serial_timeouts) (counts.set_timeouts h s)
  ]

  open_port-open_handles :
      (port : List ℕ) (s : S) (h : ℕ)
      → (win.create_file port s).0 ≡ some h
      → open_handles (open_port win port s).1 ≡ suc (open_handles s)
  unfolding open_port
  open_port-open_handles port s h e =
      let s1 = (win.create_file port s).1 in
      let settled = settings-open_handles h s1 ∙ counts.create_some port s h e in
      elim (Option-cases (set_serial_settings win h s1).0) [
        | inr (x, failed_settings) ↦ rw (e, failed_settings, open_port) settled
        | inl f ↦
            let s2 = (set_serial_settings win h s1).1 in
            let timed = timeouts-open_handles h s2 ∙ settled in
            elim (Option-cases (set_serial_timeouts win h s2).0) [
              | inl g ↦ rw (e, f, g, open_port) timed
              | inr (x, g) ↦ rw (e, f, g, open_port) timed
            ]
      ]

  -- Once CreateFile has given a handle for the port of the token, a `make` that fails leaves one handle
  -- more open than there was; if CreateFile opens the handle that it gives and the calls that set it
  -- up open and close none.
  pub failed_make-Leaks :
      (port : List ℕ) (s s' : S) (h : ℕ) (e : ErrorSerialCom)
      → com_port (win.devices s) ≡ ok (some port)
      → (win.create_file port s).0 ≡ some h
      → make_serial win s ≡ ok (failed e, s')
      → open_handles s' ≡ suc (open_handles s)
  unfolding make_serial
  failed_make-Leaks port s s' h e is_found is_given is_made =
      let opened_to = ok_injective (rw is_found at is_made) in
      ap (λ r. open_handles r.1) (sym opened_to) ∙ open_port-open_handles port s h is_given
