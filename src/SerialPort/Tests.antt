-- ===== src/SerialPort/Tests.antt =====
-- A token behind another device, and a port that takes no settings.
use ubiquitous_chainsaw.Base.{
  ℕ, suc, ◌-◌, ◌≡◌, refl, true, false, List, [], ◌∷◌, ◌++◌, some, none, ok, arith,
}
use ubiquitous_chainsaw.SerialPort.Search.{
  com_text, token_id, Described, com_port, find_text, find_last_of,
}
use ubiquitous_chainsaw.SerialPort.Finds.{AreOthers, port_name, token_id_found, com_port_finds}
use ubiquitous_chainsaw.SerialPort.Open.{
  Win32, failed, failed_to_set_connection_settings, make_serial,
}
use ubiquitous_chainsaw.SerialPort.Leaks.{CountsHandles, failed_make-Leaks}

abbrev digits : List ℕ
digits = b'1' ∷ b'2' ∷ []

-- "USB (COM12)"
abbrev usb : List ℕ
usb = b'U' ∷ b'S' ∷ b'B' ∷ b' ' ∷ b'(' ∷ []

abbrev modem : Described
modem = record { hardware_id = b'V' ∷ []; friendly_name = port_name [] (b'1' ∷ []) [] }

abbrev token : Described
token = record {
  hardware_id = b'U' ∷ (token_id ++ (b'&' ∷ []));
  friendly_name = port_name usb digits [];
}

modem_is_other : AreOthers (modem ∷ [])
unfolding find_text
modem_is_other = (λ has. let is_found = token_id_found (b'V' ∷ []) has in absurd cc, tt)

com_port_finds_example :
    com_port (modem ∷ (token ∷ [])) ≡ ok (some (b'C' ∷ b'O' ∷ b'M' ∷ b'1' ∷ b'2' ∷ []))
unfolding find_text find_last_of
com_port_finds_example =
    com_port_finds (modem ∷ []) [] (b'U' ∷ (token_id ++ (b'&' ∷ []))) usb digits [] modem_is_other
      (b'U' ∷ [], b'&' ∷ [], refl) refl refl (omega arith)

no_token : com_port (modem ∷ []) ≡ ok none
unfolding com_port find_text
no_token = refl

-- The state is the number of open handles.
abbrev stubborn : Win32 ℕ
stubborn = record {
  devices = λ s. modem ∷ (token ∷ []);
  create_file = λ port s. (some 7, suc s);
  get_comm_state = λ h s. (true, s);
  set_comm_state = λ h s. (false, s);
  set_comm_timeouts = λ h s. (true, s);
  close_handle = λ h s. s - 1;
}

abbrev handles : ℕ → ℕ
handles s = s

stubborn-CountsHandles : CountsHandles stubborn handles
stubborn-CountsHandles = record {
  create_some = λ port s h e. refl;
  create_none = λ port s e. absurd cc;
  get_state = λ h s. refl;
  set_state = λ h s. refl;
  set_timeouts = λ h s. refl;
}

port_is_given : com_port (stubborn.devices 0) ≡ ok (some (com_text ++ digits))
unfolding com_port find_text find_last_of
port_is_given = refl

made_nothing : make_serial stubborn 0 ≡ ok (failed failed_to_set_connection_settings, 1)
unfolding com_port make_serial find_text find_last_of
made_nothing = refl

failed_make-Leaks_example : handles 1 ≡ suc (handles 0)
failed_make-Leaks_example =
    failed_make-Leaks stubborn handles stubborn-CountsHandles
      (b'C' ∷ b'O' ∷ b'M' ∷ b'1' ∷ b'2' ∷ []) 0 1 7 failed_to_set_connection_settings port_is_given
      refl made_nothing
