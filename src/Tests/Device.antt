-- ===== src/Tests/Device.antt =====
-- Logins and disputes at concrete inputs (supabase/functions/auth-device/index.ts).
use luma_line.Prelude.{
  ℕ, String, true, false, none, some, List, [], ◌∷◌, ◌≡◌, ◌≤◌, ◌+◌, refl, map, length, arith, ◌==◌,
  if◌then◌else◌,
}
use luma_line.Prelude.Effects.{ok, after, handled}
use luma_line.Prelude.JsMap.{get, set}
use luma_line.Cycle.{applied}
use luma_line.Device.{
  Gate, DeviceBackend, Issued, Happening, code_requested, approved_by, polled, happenings,
  device_code, device_token, approve_grant,
}
use luma_line.Device.Once.{sessions, happenings-IsSingle}
use luma_line.Device.Dispute.{
  Docket, DisputeBackend, DisputeRequest, dispute, IsFounded, OpensOnly, dispute-IsFounded,
}

abbrev texts : ℕ → String
texts w = if w == 0 then "c1" else "r1"

abbrev demo : DeviceBackend ℕ
demo = record {
  limits = record { max = 30; window_ms = 60_000 };
  code_ttl_ms = 600_000;
  now = λ w. (5_000, w);
  random = λ w. (texts w, w + 1);
  user_code = λ w. (("AB-CD", "ABCD"), w);
  digest = λ t. t;
  ip_digest = λ ip. none;
  is_deleting = λ p w. false;
  fate = λ q w. (applied, w);
  throttle = λ scope w. (ok (some true), w);
  mint = λ who w. (ok "jwt", w);
}

abbrev start : Gate ℕ
start = record { grants = []; buckets = []; issued = []; world = 0 }

-- A code is requested, polled for too early, approved, and polled for twice.
abbrev login : List Happening
login =
    code_requested "1.2.3.4"
    ∷ polled "1.2.3.4" "c1"
    ∷ approved_by "ABCD" 6_000 "p1"
    ∷ polled "1.2.3.4" "c1"
    ∷ polled "1.2.3.4" "c1"
    ∷ []

happenings-IsSingle_example : sessions "c1" (happenings demo login start).issued ≤ 1
happenings-IsSingle_example = happenings-IsSingle demo "c1" login start (omega arith) (λ x. refl)

logged_in :
    map (λ (i : Issued). i.identity.publisher_id) (happenings demo login start).issued ≡ "p1" ∷ []
unfolding device_token after get device_code handled set approve_grant
logged_in = refl

abbrev docket : DisputeBackend ℕ
docket = record {
  impression_for = λ bearer id w. (ok (some (record { id = id; publisher_id = "p1" })), w);
  device_revoke = λ device bearer w. (ok (200, "{}"), w);
  new_id = λ w. ("d1", w + 1);
  fate = λ w. (applied, w);
}

abbrev complaint : DisputeRequest
complaint = record {
  authorization = some "Bearer t";
  impression_id = some " i1 ";
  description = some "not shown";
}

abbrev none_open : Docket ℕ
none_open = record { disputes = []; world = 0 }

dispute-IsFounded_example :
    OpensOnly docket
      (IsFounded docket complaint none_open)
      none_open
      (dispute docket complaint none_open).1
dispute-IsFounded_example = dispute-IsFounded docket complaint none_open

one_open : length (dispute docket complaint none_open).1.disputes ≡ 1
unfolding dispute after
one_open = refl
