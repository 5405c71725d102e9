-- ===== src/Tests/Auth.antt =====
-- A tick whose access token is about to expire (src/client/auth.mjs).
use luma_line.Prelude.{ℕ, suc, true, some, none, [], ◌∷◌, ◌≡◌, refl, pos, ◌-ℤ◌, ◌+ℤ◌, scale}
use luma_line.Prelude.Effects.{ok, after, handled, ended}
use luma_line.Client.Auth.{Token, TokenReply, Home, AuthBackend, get_valid_access_token}
use luma_line.Client.Auth.Served.{Serves}
use luma_line.Client.Auth.Redeemed.{IsSpent, get_valid_access_token-IsSpent}
use luma_line.Client.Auth.Valid.{get_valid_access_token-IsServed}

abbrev stored : Token
stored = record {
  access_token = "old";
  refresh_token = some "r1";
  publisher_id = some "p";
  device_id = some "d";
  handle = none;
  exp = some (pos 100);
}

-- The server rotates the refresh token.
abbrev reply : TokenReply
reply = record {
  is_ok = true;
  status = 200;
  body = record {
    access_token = some "new";
    refresh_token = some "r2";
    publisher_id = none;
    device_id = none;
    handle = none;
    expires_in = some (pos 3600);
    error = none;
  };
}

abbrev host : AuthBackend ℕ
host = record {
  jwt_exp = λ jwt. none;
  clock = λ w. (90000, w);
  can_write = λ w. (true, w);
  meanwhile = λ w file. (file, w);
  refresh = λ r w. (ok reply, suc w);
}

abbrev home : Home ℕ
home = record { token = some stored; lock = none; redeemed = []; world = 0 }

get_valid_access_token-IsServed_example :
    Serves host 90000 60000 home.token (get_valid_access_token host 90000 60000 home)
get_valid_access_token-IsServed_example = get_valid_access_token-IsServed host 90000 60000 home

rotated : (get_valid_access_token host 90000 60000 home).0 ≡ ok (some "new")
unfolding get_valid_access_token after handled ended ◌-ℤ◌ scale
rotated = refl

rotated_file : (get_valid_access_token host 90000 60000 home).1 ≡ record {
  token =
      some
        (record stored { access_token = "new"; refresh_token = some "r2"; exp = some (pos 3690) });
  lock = none;
  redeemed = record { token = "r1"; lock = some 90000 } ∷ [];
  world = 1;
}
unfolding get_valid_access_token after handled ended ◌-ℤ◌ scale ◌+ℤ◌
rotated_file = refl

get_valid_access_token-IsSpent_example :
    IsSpent host 90000 60000 home (get_valid_access_token host 90000 60000 home).1
get_valid_access_token-IsSpent_example = get_valid_access_token-IsSpent host 90000 60000 home
