-- ===== src/SerialPort/Open.antt =====
-- `CSerialCommunication` over the calls of Windows, which are the record `Win32`.
use ubiquitous_chainsaw.Base.{ℕ, Bool, true, false, List, Option, none, some, Outcome, ok, ◌>>=◌}
use ubiquitous_chainsaw.SerialPort.Search.{Described, com_port}

-- Each call with the state of the system before and after it: `CreateFile` gives a handle or none.
pub record Win32 (S : Type 0) : Type 0 where
  pub devices : S → List Described
  pub create_file : List ℕ → S → Option ℕ × S
  pub get_comm_state : ℕ → S → Bool × S
  pub set_comm_state : ℕ → S → Bool × S
  pub set_comm_timeouts : ℕ → S → Bool × S
  pub close_handle : ℕ → S → S

pub data ErrorSerialCom : Type 0 where
  device_not_found failed_to_open_connection failed_to_set_connection_timeouts : ErrorSerialCom
  failed_to_set_connection_settings failed_to_get_connection_settings : ErrorSerialCom

-- `std::expected<CSerialCommunication, ErrorSerialCom>`: a connection is its handle.
pub data Made : Type 0 where
  connected : ℕ → Made
  failed : ErrorSerialCom → Made

module _ {S : Type 0} (win : Win32 S) where
  -- `set_serial_settings` with `serial_settings`: what it throws.
  unfoldable pub set_serial_settings : ℕ → S → Option ErrorSerialCom × S
  set_serial_settings handle s =
      let (read, s1) = win.get_comm_state handle s in
      let (written, s2) = win.set_comm_state handle s1 in
      elim read [
        | false ↦ (some failed_to_get_connection_settings, s1)
        | true ↦ elim written [
          | false ↦ (some failed_to_set_connection_settings, s2)
          | true ↦ (none, s2)
        ]
      ]

  unfoldable pub set_serial_timeouts : ℕ → S → Option ErrorSerialCom × S
  set_serial_timeouts handle s =
      let (written, s1) = win.set_comm_timeouts handle s in
      elim written [ false ↦ (some failed_to_set_connection_timeouts, s1) | true ↦ (none, s1) ]

  -- `CSerialCommunication::CSerialCommunication`; what it throws, `make` returns. The destructor of an
  -- object whose constructor throws does not run.
  unfoldable pub open_port : List ℕ → S → Made × S
  unfolding set_serial_settings set_serial_timeouts
  open_port port s =
      let (handle, s1) = win.create_file port s in
      elim handle [
        | none ↦ (failed failed_to_open_connection, s1)
        | some h ↦
            let (settings_error, s2) = set_serial_settings h s1 in
            elim settings_error [
              | some e ↦ (failed e, s2)
              | none ↦
                  let (timeouts_error, s3) = set_serial_timeouts h s2 in
                  elim timeouts_error [ some e ↦ (failed e, s3) | none ↦ (connected h, s3) ]
            ]
      ]

  abbrev opened : Option (List ℕ) → S → Made × S
  opened none s = (failed device_not_found, s)
  opened (some port) s = open_port port s

  -- `CSerialCommunication::make`
  unfoldable pub make_serial : S → Outcome (Made × S)
  unfolding open_port com_port
  make_serial s = com_port (win.devices s) >>= λ port. ok (opened port s)

  -- `~CSerialCommunication`, of a connection that has not been moved from.
  unfoldable pub destroy_serial : ℕ → S → S
  destroy_serial handle s = win.close_handle handle s
