-- ===== src/Tests/Setup.antt =====
-- Concrete values for the interfaces: frequencies in thousandths of a MHz, and an environment that
-- plays a script of received chunks and asks to stop when it has played them.
use antenna_guardian_pi_lite.Common.{
  ℕ, ◌*◌, ◌≤◌, Bool, true, false, List, [], ◌∷◌, some, ◌≡◌, refl, arith, leb, if◌then◌else◌, length,
  take, length-take_le,
}
use antenna_guardian_pi_lite.CString.{Text, codes}
use antenna_guardian_pi_lite.CString.Numbers.{read_digits, starts_with_digit}
use antenna_guardian_pi_lite.Config.{Config, radio_direct}
use antenna_guardian_pi_lite.Floats.{Floats, Strtod}
use antenna_guardian_pi_lite.Flex.Connection.{
  Env, poll_timeout, poll_ready, recv_failed, received, RecvResult, sent,
}

-- Whole and fraction, of three digits.
abbrev joined : ℕ × Text → Strtod ℕ
joined (whole, []) = record { value = whole * 1000; rest = []; converted = true; range_ok = true }
joined (whole, c ∷ cs) =
    let (all, rest) = read_digits 10 whole cs in
    record { value = all; rest = rest; converted = true; range_ok = true }

abbrev parse_milli : Text → Strtod ℕ
parse_milli text =
    if starts_with_digit 10 text
    then joined (read_digits 10 0 text)
    else record { value = 0; rest = text; converted = false; range_ok = true }

pub milli_trans : (a b c : ℕ) → leb a b ≡ true → leb b c ≡ true → leb a c ≡ true
milli_trans a b c h k = ground arith

instance abbrev pub milli_floats : Floats ℕ
milli_floats = record {
  le = leb;
  zero_value = 0;
  milli = λ n. n;
  strtod = parse_milli;
  le_trans = milli_trans;
  le-milli = λ m n _ _. refl;
}

abbrev pub Script : Type 0
Script = List Text

abbrev next : ℕ → Script → RecvResult × Script
next room [] = (recv_failed, [])
next room (chunk ∷ rest) = (received (take room chunk), rest)

abbrev finished : Script → Bool
finished [] = true
finished (chunk ∷ rest) = false

pub next_fits :
    (room : ℕ) (s : Script) (bytes : Text) → (next room s).0 ≡ received bytes → length bytes ≤ room
next_fits room [] bytes e = cc
next_fits room (chunk ∷ rest) bytes e =
    let same : take room chunk ≡ bytes = cc in rw (← same) (length-take_le room chunk)

abbrev pub script_env : Env Script
script_env = record {
  stop_requested = λ s. (finished s, s);
  clock = λ s. (0, s);
  poll = λ timeout s. (if finished s then poll_timeout else poll_ready false true, s);
  recv = next;
  send = λ bytes s. (sent (length bytes), s);
  connect = λ config s. (some 3, s);
  close = λ s. s;
  stop_kept = λ s h. h;
  recv_fits = next_fits;
}

-- ANT1 on 40m and 20m (bits 3 and 5), ANT2 on 20m.
abbrev pub station : Config
station = record {
  radio_mode = radio_direct;
  host = codes "192.0.2.20";
  radio_serial = [];
  discovery_ip = [];
  port = 4992;
  reconnect_seconds = 3;
  reconnect_max_seconds = 30;
  reconnect_log_seconds = 300;
  antennas =
      record { id = codes "ANT1"; allowed_bands = 40 }
      ∷ record { id = codes "ANT2"; allowed_bands = 32 }
      ∷ [];
}
