-- ===== src/Witness/Data.antt =====
-- A small server: one user, one delivered code, one push, one TOTP secret; toy cryptography.
use ligament_2fa.Prelude.{ℕ, ◌+◌, true, false, none, some, List, [], ◌∷◌, ◌==◌}
use ligament_2fa.Auth.Config.{Env, Settings, Crypto}
use ligament_2fa.Auth.Radius.{PushEnv}
use ligament_2fa.Store.State.{World, User, Challenge, TotpSecret, email, app_push, approved}

abbrev sum : List ℕ → ℕ
sum [] = 0
sum (x ∷ xs) = x + sum xs

abbrev pub settings : Settings
settings = record {
  code_ttl = 300;
  max_attempts = 5;
  resend_cooldown = 60;
  push_cooldown = 30;
  push_per_hour = 10;
  fail_window = 300;
  max_fail = 5;
  ban_time = 900;
  default_prefer = [];
  code_lengths = 2 ∷ [];
  radius_max_fail_per_user = 10;
  radius_fail_window = 300;
  push_wait = 3;
  skew = 1;
}

abbrev pub crypto : Crypto
crypto = record {
  sha256 = sum;
  check_password = λ h p. h == sum p;
  decrypt = λ name s. some s;
  totp_validate = λ code secret now period skew digits. some true;
  hotp_code = λ secret counter digits. some (counter ∷ []);
}

abbrev pub env : Env
env = record {
  settings = settings;
  crypto = crypto;
  context = record { ip = "203.0.113.9"; client_ip = "" };
  has_firewall = true;
}

abbrev pub alice : User
alice = record {
  id = 1;
  username = "alice";
  password_hash = 7;
  enabled = true;
  email = "alice@example.org";
  phone = "";
  password_enc = some 7;
  telegram_chat_id = none;
  prefer_channels = [];
}

abbrev pub mail_code : Challenge
mail_code = record {
  id = 10;
  user_id = 1;
  channel = email;
  code_hash = some 5;
  push_state = none;
  expires_at = 200;
  attempts_left = 3;
  used_at = none;
  purpose = "api";
  created_at = 90;
}

abbrev pub push_sent_before : Challenge
push_sent_before = record {
  id = 11;
  user_id = 1;
  channel = app_push;
  code_hash = none;
  push_state = some approved;
  expires_at = 200;
  attempts_left = 1;
  used_at = none;
  purpose = "vpn";
  created_at = 90;
}

abbrev pub secret : TotpSecret
secret = record {
  user_id = 1;
  secret_enc = 42;
  digits = 6;
  period = 30;
  confirmed = true;
  last_timestep = 2;
}

abbrev pub world : World
world = record {
  now = 100;
  faults = [];
  users = alice ∷ [];
  challenges = mail_code ∷ push_sent_before ∷ [];
  backups = [];
  totps = secret ∷ [];
  audit_log = [];
  trusted = [];
  fw_fails = [];
  oidc_clients = [];
  oidc_codes = [];
  oidc_tokens = [];
  argon2_runs = 0;
}

abbrev pub push : PushEnv
push = record {
  has_app = true;
  has_telegram = false;
  radius_push = true;
  app_fails = false;
  app_delivered = 1;
  telegram_fails = false;
  service = "vpn";
  new_id = 12;
}
